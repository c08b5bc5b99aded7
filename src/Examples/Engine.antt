-- ===== src/Examples/Engine.antt =====
-- The properties of the correlation and of the engine at concrete inputs.
use kazutb_siem.Base.{
  ℕ, ◌≤◌, ◌<◌, String, ◌≡◌, refl, ◌≢◌, true, false, ◌&&◌, not, List, [], ◌∷◌, ◌==◌, length, has,
  Distinct,
}
use kazutb_siem.Base.Int.{pos}
use kazutb_siem.Base.Text.{◌<>◌, trim_space}
use kazutb_siem.Core.{severity_from_risk, CanonicalEvent}
use kazutb_siem.Store.State.{append_new}
use kazutb_siem.Correlation.Records.{
  event_count, no_evaluation, CorrelationObservation, CorrelationRecord,
}
use kazutb_siem.Correlation.Temporal.{assign, in_order}
use kazutb_siem.Correlation.Evaluate.{evaluate_correlation, correlation_fingerprint}
use kazutb_siem.Correlation.Observe.{new_memory_correlation_store, correlate, record_observation}
use kazutb_siem.Correlation.Matching.{
  Assigned, assign-Assigned, assign_complete, InOrder, in_order-InOrder,
}
use kazutb_siem.Correlation.Once.{record_observation_again}
use kazutb_siem.Correlation.Trigger.{correlate-triggered}
use kazutb_siem.Pipeline.Rules.{auth_rule}
use kazutb_siem.Pipeline.Normalize.{or_else, normalized, normalize}
use kazutb_siem.Pipeline.Detect.{factor, DetectionMatch}
use kazutb_siem.Pipeline.Outcome.{sum_deltas, make_finding, make_alert}
use kazutb_siem.Pipeline.NormalForm.{normalize_lem}
use kazutb_siem.Pipeline.Risk.{make_finding-risk, make_alert-events}
use kazutb_siem.Examples.Data.{codec, encoder, event}

abbrev seen : String → String → CorrelationRecord
seen rule id = record { source_rule_id = rule; event_id = id; event_time = 10; value = "" }

-- The first rule has two events, the second only one of these.
abbrev observed : List CorrelationRecord
observed = seen "A" "e1" ∷ seen "A" "e2" ∷ seen "B" "e1" ∷ []

assign-Assigned_example : Assigned observed ("A" ∷ "B" ∷ []) [] ("e2" ∷ "e1" ∷ [])
unfolding assign
assign-Assigned_example = assign-Assigned observed ("A" ∷ "B" ∷ []) [] ("e2" ∷ "e1" ∷ []) refl

in_order-InOrder_example :
    InOrder ("A" ∷ "B" ∷ []) [] (seen "A" "e1" ∷ seen "B" "e2" ∷ []) ("e1" ∷ "e2" ∷ [])
unfolding in_order
in_order-InOrder_example =
    in_order-InOrder ("A" ∷ "B" ∷ []) [] (seen "A" "e1" ∷ seen "B" "e2" ∷ []) ("e1" ∷ "e2" ∷ [])
      refl

abbrev pair : CorrelationObservation
pair = record {
  tenant_id = "north";
  rule_id = "r";
  rule_version = "1";
  group_key = "g";
  source_rule_ids = "A" ∷ [];
  event_id = "e1";
  event_time = 10;
  value = "";
  spec = record {
    kind = event_count;
    rules = "A" ∷ [];
    group_by = [];
    value_field = "";
    timespan_seconds = 60;
    threshold = 1;
  };
}

record_observation_again_example :
    record_observation codec pair (record_observation codec pair new_memory_correlation_store).1
    ≡ (no_evaluation, (record_observation codec pair new_memory_correlation_store).1)
record_observation_again_example = record_observation_again pair codec new_memory_correlation_store

correlate-triggered_example :
    ((evaluate_correlation pair.spec []).satisfied ≡ false)
    × ((evaluate_correlation pair.spec (seen "A" "e1" ∷ [])).satisfied ≡ true)
    × (has
          (correlation_fingerprint codec pair (evaluate_correlation pair.spec (seen "A" "e1" ∷ [])))
          []
        ≡ false)
    × (has
          (correlation_fingerprint codec pair (evaluate_correlation pair.spec (seen "A" "e1" ∷ [])))
          (correlate codec pair (seen "A" "e1" ∷ []) new_memory_correlation_store).1.emissions
        ≡ true)
unfolding correlate
correlate-triggered_example =
    correlate-triggered codec pair (seen "A" "e1" ∷ []) new_memory_correlation_store refl

abbrev accepted : CanonicalEvent
accepted = normalized encoder 1000 "evt" "south" event

normalize_lem_example :
    (accepted.tenant_id ≡ "south")
    × (trim_space "south" ≢ "")
    × (trim_space accepted.category ≢ "")
    × (accepted.source.kind ≢ "")
    × (accepted.id ≡ or_else "e1" "evt")
    × (accepted.raw.hash ≡ "sha256:" <> encoder.codec.sha256_hex accepted.raw.message)
unfolding normalize trim_space
normalize_lem_example = normalize_lem encoder 1000 "evt" "south" event accepted refl

abbrev found : DetectionMatch
found = record {
  rule = auth_rule 7;
  matched_fields = [];
  factors = factor "a" "" 60 "" ∷ factor "b" "" 70 "" ∷ [];
  event_ids = "e1" ∷ "" ∷ "e1" ∷ [];
  dedup_discriminator = "";
  reference_id = "";
}

make_finding-risk_example :
    ((make_finding "f" 9 event found).risk_score ≤ 100)
    × ((n : ℕ)
        → sum_deltas found.factors ≡ pos n
        → n ≤ 100
        → (make_finding "f" 9 event found).risk_score ≡ n)
    × ((make_finding "f" 9 event found).severity
        ≡ severity_from_risk (make_finding "f" 9 event found).risk_score)
    × ((make_finding "f" 9 event found).risk_breakdown ≡ found.factors)
make_finding-risk_example = make_finding-risk "f" 9 event found

make_alert-events_example :
    (0
      < length
          (make_alert "a" 9 event (make_finding "f" 9 event found) found.event_ids "").0.event_ids)
    × Distinct
        (make_alert "a" 9 event (make_finding "f" 9 event found) found.event_ids "").0.event_ids
    × ((make_alert "a" 9 event (make_finding "f" 9 event found) found.event_ids "").0.event_count
        ≡ length
            (make_alert "a" 9 event
              (make_finding "f" 9 event found)
              found.event_ids
              "").0.event_ids)
    × ((e : String)
        → 0 < length (append_new [] found.event_ids)
        → has e
            (make_alert "a" 9 event (make_finding "f" 9 event found) found.event_ids "").0.event_ids
          ≡ (not (e == "") && has e found.event_ids))
make_alert-events_example =
    make_alert-events "a" 9 event (make_finding "f" 9 event found) found.event_ids ""

-- The only event of the first rule is the only one of the second.
assign_complete_example :
    ¬ Assigned (seen "A" "e1" ∷ seen "B" "e1" ∷ []) ("A" ∷ "B" ∷ []) [] ("e1" ∷ "e1" ∷ [])
unfolding assign
assign_complete_example =
    assign_complete (seen "A" "e1" ∷ seen "B" "e1" ∷ []) ("A" ∷ "B" ∷ []) [] ("e1" ∷ "e1" ∷ []) refl
