-- ===== src/Correlation/Observe.antt =====
-- MemoryCorrelationStore: validateCorrelationObservation, ObserveCorrelation and ResetTenant. Each
-- method holds the mutex. A record is kept for two windows; an event far in the past empties none.
use kazutb_siem.Base.{
  false, ℕ, ◌+◌, ◌*◌, String, Bool, true, ◌&&◌, ◌||◌, not, Option, none, some, List, [], ◌∷◌, ◌++◌,
  ◌==◌, ltb, leb, eqb, if◌then◌else◌, length, keep, has,
}
use kazutb_siem.Base.Map.{Map, insert, delete_if}
use kazutb_siem.Base.Text.{◌<>◌, trim_space, has_prefix}
use kazutb_siem.Core.{Error, invalid_observation, wrap, Result, ok, err, require, ◌>>◌}
use kazutb_siem.Store.State.{slice_at}
use kazutb_siem.Store.Audit.{Codec}
use kazutb_siem.Correlation.Records.{
  no_evaluation, unique_strings, CorrelationObservation, CorrelationRecord, CorrelationEvaluation,
}
use kazutb_siem.Correlation.Evaluate.{evaluate_correlation, correlation_fingerprint}

-- `emissions` and `observation` are maps to bool of which only the keys matter.
pub record MemoryCorrelationStore : Type 0 where
  pub records : Map (List CorrelationRecord)
  pub emissions : List String
  pub observation : List String

abbrev pub new_memory_correlation_store : MemoryCorrelationStore
new_memory_correlation_store = record { records = []; emissions = []; observation = [] }

unfoldable pub validate_correlation_observation : CorrelationObservation → Result (Unit {0})
unfolding trim_space
validate_correlation_observation input = do
  require
      (not (
        trim_space input.tenant_id == ""
        || trim_space input.rule_id == ""
        || trim_space input.rule_version == ""
        || trim_space input.group_key == ""
        || trim_space input.event_id == ""
        || eqb input.event_time 0
        || eqb (length input.source_rule_ids) 0))
      (wrap "tenant, rule, version, group, event, time and source rules are required"
        invalid_observation)
  require (not (eqb input.spec.timespan_seconds 0 || ltb 86400 input.spec.timespan_seconds))
      (wrap "timespan is outside supported bounds" invalid_observation)

unfoldable pub state_key : CorrelationObservation → String
state_key input =
    input.tenant_id <> "\u{1e}" <> input.rule_id <> "\u{1e}" <> input.rule_version <> "\u{1e}"
    <> input.group_key

unfoldable pub observation_key : CorrelationObservation → String → String
unfolding state_key
observation_key input source_rule_id =
    state_key input <> "\u{1e}" <> source_rule_id <> "\u{1e}" <> input.event_id

-- The loop over the source rules: the new records, and the observations with theirs.
unfoldable pub observe_sources :
    CorrelationObservation → List String → List String → List CorrelationRecord × List String
unfolding observation_key has
observe_sources input [] seen = ([], seen)
observe_sources input (s ∷ ss) seen = elim (has (observation_key input s) seen) [
  | true ↦ observe_sources input ss seen
  | false ↦
      let (new, all) = observe_sources input ss (observation_key input s ∷ seen) in
      (
        record {
          source_rule_id = s;
          event_id = input.event_id;
          event_time = input.event_time;
          value = input.value;
        }
            ∷ new,
        all,
      )
]

-- The window in nanoseconds.
unfoldable pub window : CorrelationObservation → ℕ
window input = input.spec.timespan_seconds * 1000000000

-- not before the cutoff of `spans` windows
unfoldable pub recent : ℕ → CorrelationObservation → CorrelationRecord → Bool
unfolding window
recent spans input r = leb input.event_time (r.event_time + spans * window input)

unfoldable pub in_window : CorrelationObservation → CorrelationRecord → Bool
unfolding recent
in_window input r = recent 1 input r && leb r.event_time input.event_time

-- What ObserveCorrelation does with the new records of an observation.
unfoldable pub correlate :
    Codec
    → CorrelationObservation
    → List CorrelationRecord
    → MemoryCorrelationStore
    → CorrelationEvaluation × MemoryCorrelationStore
unfolding state_key slice_at keep recent in_window evaluate_correlation correlation_fingerprint
    insert has
correlate c input new_records m =
    let old = slice_at (state_key input) m.records in
    let windowed = keep (in_window input) old in
    let before = evaluate_correlation input.spec windowed in
    let stored = record m {
      records = insert (state_key input) (keep (recent 2 input) old ++ new_records) m.records;
    } in
    let after = evaluate_correlation input.spec (windowed ++ new_records) in
    let fingerprint = correlation_fingerprint c input after in
    if before.satisfied || not after.satisfied || has fingerprint m.emissions
    then (after, stored)
    else (
      record after { triggered = true },
      record stored { emissions = fingerprint ∷ m.emissions },
    )

-- Below the validation.
unfoldable pub record_observation :
    Codec
    → CorrelationObservation
    → MemoryCorrelationStore
    → CorrelationEvaluation × MemoryCorrelationStore
unfolding unique_strings observe_sources correlate
record_observation c input m =
    let (new_records, seen) =
      observe_sources input (unique_strings input.source_rule_ids) m.observation in
    let noted = record m { observation = seen } in
    if eqb (length new_records) 0
    then (no_evaluation, noted)
    else correlate c input new_records noted

-- `ctx` is the context's error.
unfoldable pub observe_correlation :
    Option Error
    → Codec
    → CorrelationObservation
    → MemoryCorrelationStore
    → Result CorrelationEvaluation × MemoryCorrelationStore
unfolding validate_correlation_observation record_observation
observe_correlation (some e) c input m = (err e, m)
observe_correlation none c input m = elim (validate_correlation_observation input) [
  | err e ↦ (err e, m)
  | ok _ ↦ let (evaluation, m') = record_observation c input m in (ok evaluation, m')
]

unfoldable pub reset_tenant : String → MemoryCorrelationStore → MemoryCorrelationStore
unfolding delete_if has_prefix keep
reset_tenant tenant m =
    let prefix = tenant <> "\u{1e}" in
    record {
      records = delete_if (λ key. has_prefix key prefix) m.records;
      emissions = [];
      observation = keep (λ key. not (has_prefix key prefix)) m.observation;
    }
