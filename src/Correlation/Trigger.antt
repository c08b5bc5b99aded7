-- ===== src/Correlation/Trigger.antt =====
-- When an observation triggers.
use kazutb_siem.Base.{
  String, ◌≡◌, refl, true, false, Option, none, some, List, ◌++◌, arith, ◌==◌, eq_iff,
  if◌then◌else◌, keep, has,
}
use kazutb_siem.Store.Audit.{Codec}
use kazutb_siem.Store.State.{slice_at}
use kazutb_siem.Store.Laws.{slice_at-insert}
use kazutb_siem.Correlation.Records.{CorrelationSpec, CorrelationObservation, CorrelationRecord}
use kazutb_siem.Correlation.Evaluate.{
  selected, matched_evaluation, evaluate_correlation, correlation_fingerprint,
}
use kazutb_siem.Correlation.Temporal.{match_temporal}
use kazutb_siem.Correlation.Observe.{
  state_key, recent, in_window, correlate, MemoryCorrelationStore,
}

matched_calm : (o : Option (List String)) → (matched_evaluation o).triggered ≡ false
unfolding matched_evaluation
matched_calm none = refl
matched_calm (some ids) = refl

evaluate_correlation_calm :
    (spec : CorrelationSpec) (records : List CorrelationRecord)
    → (evaluate_correlation spec records).triggered ≡ false
unfolding evaluate_correlation
evaluate_correlation_calm spec records = ground (
  arith,
  matched_calm (match_temporal spec.rules (selected spec records) false),
  matched_calm (match_temporal spec.rules (selected spec records) true),
)

-- An observation that triggers does so because its records make the condition hold: it did not
-- hold of the records in the window before, it holds of them with the new records, and the
-- emission is recorded, so that it cannot happen a second time.
pub correlate-triggered :
    (c : Codec) (input : CorrelationObservation) (new : List CorrelationRecord)
    (m : MemoryCorrelationStore)
    → (correlate c input new m).0.triggered ≡ true
    → let windowed = keep (in_window input) (slice_at (state_key input) m.records) in
      let after = evaluate_correlation input.spec (windowed ++ new) in
      ((evaluate_correlation input.spec windowed).satisfied ≡ false)
      × (after.satisfied ≡ true)
      × (has (correlation_fingerprint c input after) m.emissions ≡ false)
      × (has (correlation_fingerprint c input after) (correlate c input new m).1.emissions ≡ true)
unfolding correlate has
correlate-triggered c input new m e =
    let windowed = keep (in_window input) (slice_at (state_key input) m.records) in
    let after = evaluate_correlation input.spec (windowed ++ new) in
    let calm = evaluate_correlation_calm input.spec (windowed ++ new) in
    let fingerprint = correlation_fingerprint c input after in
    (
      ground (arith, e, calm),
      ground (arith, e, calm),
      ground (arith, e, calm),
      ground (arith, e, calm, eq_iff fingerprint fingerprint),
    )

-- What an observation keeps: of the records of other groups nothing changes, and of its own group
-- those within two windows stay, followed by the new ones.
pub correlate-records :
    (c : Codec) (input : CorrelationObservation) (new : List CorrelationRecord)
    (m : MemoryCorrelationStore) (key : String)
    → slice_at key (correlate c input new m).1.records ≡ (
        if state_key input == key
        then keep (recent 2 input) (slice_at key m.records) ++ new
        else slice_at key m.records)
unfolding correlate
correlate-records c input new m key =
    let kept = keep (recent 2 input) (slice_at (state_key input) m.records) ++ new in
    ground
      (arith, slice_at-insert (state_key input) key kept m.records, eq_iff (state_key input) key)
