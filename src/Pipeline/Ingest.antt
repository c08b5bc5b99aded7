-- ===== src/Pipeline/Ingest.antt =====
-- Ingest. The state is the repository's and the correlation store's. The entity
-- graph is a port: only the error of its projection is read. The counters of package observability
-- are left out. The k-th match takes the clock, the identifiers and the contexts 3k, 3k+1, 3k+2.
use kazutb_siem.Base.{
  ℕ, suc, ◌+◌, ◌*◌, String, Bool, true, false, ◌&&◌, not, Option, none, some, List, [], ◌∷◌, ◌==◌,
  if◌then◌else◌,
}
use kazutb_siem.Base.Int.{pos}
use kazutb_siem.Core.{
  Fields, CanonicalEvent, num, text, end, field, Finding, Alert, AuditEntry, IngestResult, Error,
  Result, wrap, ok, err,
}
use kazutb_siem.Store.State.{Memory}
use kazutb_siem.Store.Action.{Action, pure, wrapping, ◌>>=◌, ◌>>◌, Env}
use kazutb_siem.Store.Repository
use kazutb_siem.Soc.Lifecycle.{minute}
use kazutb_siem.Correlation.Observe.{MemoryCorrelationStore}
use kazutb_siem.Pipeline.Rules.{threat_intel_rule_id, ueba_rule_id}
use kazutb_siem.Pipeline.Normalize.{Encoder, normalize}
use kazutb_siem.Pipeline.Detect.{DetectionMatch, detect}
use kazutb_siem.Pipeline.Outcome.{make_finding, make_alert}

-- The metadata of the entry, in the order of the map's keys.
unfoldable pub detection_metadata : CanonicalEvent → Finding → DetectionMatch → Fields
detection_metadata event finding found =
    let reference = not (found.reference_id == "") in
    field "event_id" (text event.id) (
      field "risk_score" (num (pos finding.risk_score)) (
        field "rule_id" (text finding.rule.id) (
          if found.rule.id == threat_intel_rule_id && reference
          then field "threat_indicator_id" (text found.reference_id) end
          else if found.rule.id == ueba_rule_id && reference
          then field "ueba_anomaly_id" (text found.reference_id) end
          else end)))

unfoldable pub detection_entry :
    String → CanonicalEvent → Finding → DetectionMatch → Alert → Bool → AuditEntry
unfolding detection_metadata
detection_entry tenant event finding found alert created = record {
  id = "";
  tenant_id = tenant;
  actor = "system:detection-engine";
  action = if created then "alert.created" else "alert.updated";
  resource_type = "alert";
  resource_id = alert.id;
  outcome = "success";
  request_id = "";
  metadata = detection_metadata event finding found;
  previous_hash = "";
  hash = "";
  created_at = 0;
}

module _ (encoder : Encoder) (env : Env) where
  open env use {clock, new_id, ctx}

  -- The body of the loop over the matches, for the k-th of them.
  unfoldable pub record_match :
      ℕ → String → CanonicalEvent → DetectionMatch → Action (Finding × Alert)
  unfolding make_finding make_alert detection_entry
  record_match k tenant event found = do
    let finding = make_finding (new_id (3 * k) "fnd") (clock (3 * k)) event found
    let (candidate, key) =
        make_alert (new_id (3 * k + 1) "alt") (clock (3 * k + 1)) event finding found.event_ids
          found.dedup_discriminator
    wrapping "persist finding" (Repository.put_finding (ctx (3 * k)) finding)
    outcome ←
        wrapping "persist alert"
          (Repository.upsert_alert (ctx (3 * k + 1)) candidate key (15 * minute))
    wrapping "append detection audit" (
        Repository.append_audit (ctx (3 * k + 2)) encoder.codec (new_id (3 * k + 2) "aud")
          (clock (3 * k + 2)) (detection_entry tenant event finding found outcome.0 outcome.1))
    pure (finding, outcome.0)

  unfoldable pub record_matches :
      ℕ → String → CanonicalEvent → List DetectionMatch → Action (List Finding × List Alert)
  unfolding record_match
  record_matches k tenant event [] = pure ([], [])
  record_matches k tenant event (found ∷ rest) = do
    first ← record_match k tenant event found
    others ← record_matches (suc k) tenant event rest
    pure (first.0 ∷ others.0, first.1 ∷ others.1)

  -- From the detection on, for an event that is no duplicate.
  unfoldable pub evaluate_event :
      ℕ
      → String
      → CanonicalEvent
      → Memory
      → MemoryCorrelationStore
      → Result IngestResult × (Memory × MemoryCorrelationStore)
  unfolding detect record_matches
  evaluate_event built tenant stored m correlations =
      let (found, correlations') = detect encoder (ctx 1) built stored correlations in
      elim found [
        | err e ↦ (err e, (m, correlations'))
        | ok matches ↦
            let (recorded, m') = record_matches 1 tenant stored matches m in
            elim recorded [
              | err e ↦ (err e, (m', correlations'))
              | ok lists ↦ (
                ok (record {
                  event = stored;
                  findings = lists.0;
                  alerts = lists.1;
                  duplicate = false;
                }),
                (m', correlations'),
              )
            ]
      ]

  -- From the answer of PutEvent on. `observe` is the error of ObserveEntityEvent.
  unfoldable pub receive :
      (CanonicalEvent → Option Error)
      → ℕ
      → String
      → MemoryCorrelationStore
      → Result (CanonicalEvent × Bool) × Memory
      → Result IngestResult × (Memory × MemoryCorrelationStore)
  unfolding evaluate_event
  receive observe built tenant correlations (put, m) = elim put [
    | err e ↦ (err (wrap "persist canonical event" e), (m, correlations))
    | ok (stored, duplicate) ↦ elim (observe stored) [
      | some e ↦ (err (wrap "project entity graph" e), (m, correlations))
      | none ↦ elim duplicate [
        | true ↦ (
          ok (record { event = stored; findings = []; alerts = []; duplicate = true }),
          (m, correlations),
        )
        | false ↦ evaluate_event built tenant stored m correlations
      ]
    ]
  ]

  unfoldable pub ingest :
      (CanonicalEvent → Option Error)
      → ℕ
      → String
      → CanonicalEvent
      → Memory
      → MemoryCorrelationStore
      → Result IngestResult × (Memory × MemoryCorrelationStore)
  unfolding normalize receive
  ingest observe built tenant input m correlations =
      elim (normalize encoder (clock 0) (new_id 0 "evt") tenant input) [
        | err e ↦ (err e, (m, correlations))
        | ok event ↦
            receive observe built tenant correlations (Repository.put_event (ctx 0) event m)
      ]
