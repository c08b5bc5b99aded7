-- ===== src/Correlation/Evaluate.antt =====
-- EvaluateCorrelation and CorrelationFingerprint. Records that agree on the time, the event and the
-- rule stay in the order of the input.
use kazutb_siem.Base.{
  String, Bool, true, false, Option, none, some, List, [], ◌∷◌, ◌==◌, ltb, leb, eqb, if◌then◌else◌,
  length, keep, has,
}
use kazutb_siem.Base.Text.{text_lt}
use kazutb_siem.Core.{text, text_items, arr, end, field}
use kazutb_siem.Store.Audit.{Codec}
use kazutb_siem.Soc.Lifecycle.{sort_texts}
use kazutb_siem.Correlation.Records.{
  event_count, value_count, temporal, temporal_ordered, no_evaluation, unique_event_ids,
  distinct_values_of, bounded_correlation_ids, CorrelationSpec, CorrelationObservation,
  CorrelationRecord, CorrelationEvaluation,
}
use kazutb_siem.Correlation.Temporal.{match_temporal}

-- The order that sort.Slice is given.
unfoldable pub record_before : CorrelationRecord → CorrelationRecord → Bool
unfolding text_lt
record_before r s =
    if eqb r.event_time s.event_time
    then if r.event_id == s.event_id
      then text_lt r.source_rule_id s.source_rule_id
      else text_lt r.event_id s.event_id
    else ltb r.event_time s.event_time

unfoldable pub insert_record : CorrelationRecord → List CorrelationRecord → List CorrelationRecord
unfolding record_before
insert_record r [] = r ∷ []
insert_record r (s ∷ ss) =
    let later = insert_record r ss in if record_before s r then s ∷ later else r ∷ s ∷ ss

unfoldable pub sort_records : List CorrelationRecord → List CorrelationRecord
unfolding insert_record
sort_records [] = []
sort_records (r ∷ rs) = insert_record r (sort_records rs)

-- The records of the rules of the specification, in order.
unfoldable pub selected : CorrelationSpec → List CorrelationRecord → List CorrelationRecord
unfolding keep sort_records has
selected spec records = sort_records (keep (λ r. has r.source_rule_id spec.rules) records)

unfoldable pub matched_evaluation : Option (List String) → CorrelationEvaluation
matched_evaluation none = no_evaluation
matched_evaluation (some ids) = record {
  satisfied = true;
  triggered = false;
  count = length ids;
  distinct_values = 0;
  event_ids = ids;
}

unfoldable pub evaluate_correlation :
    CorrelationSpec → List CorrelationRecord → CorrelationEvaluation
unfolding selected unique_event_ids distinct_values_of bounded_correlation_ids match_temporal
    matched_evaluation
evaluate_correlation spec records =
    let filtered = selected spec records in
    let ids = unique_event_ids filtered in
    let values = distinct_values_of filtered in
    if spec.kind == event_count
    then record {
      satisfied = leb spec.threshold (length ids);
      triggered = false;
      count = length ids;
      distinct_values = length values;
      event_ids = bounded_correlation_ids ids;
    }
    else if spec.kind == value_count
    then record {
      satisfied = leb spec.threshold (length values);
      triggered = false;
      count = length ids;
      distinct_values = length values;
      event_ids = bounded_correlation_ids ids;
    }
    else if spec.kind == temporal
    then matched_evaluation (match_temporal spec.rules filtered false)
    else if spec.kind == temporal_ordered
    then matched_evaluation (match_temporal spec.rules filtered true)
    else no_evaluation

unfoldable pub correlation_fingerprint :
    Codec → CorrelationObservation → CorrelationEvaluation → String
unfolding sort_texts text_items
correlation_fingerprint c observation evaluation = c.sha256_hex (
    c.marshal (
      field "tenant" (text observation.tenant_id) (
        field "rule" (text observation.rule_id) (
          field "version" (text observation.rule_version) (
            field "group" (text observation.group_key) (
              field "trigger" (text observation.event_id)
                (field "events" (arr (text_items (sort_texts evaluation.event_ids))) end)))))))
