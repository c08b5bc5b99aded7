-- ===== src/Correlation/Records.antt =====
-- The correlation types of core/detection_content.go, and the helpers of correlation.go on texts.
-- A threshold and a span below 1 count as 0.
use kazutb_siem.Base.{ℕ, String, Bool, false, List, [], ◌∷◌, leb, if◌then◌else◌, length, take}
use kazutb_siem.Base.Text.{trim_space}
use kazutb_siem.Store.State.{append_new}
use kazutb_siem.Soc.Lifecycle.{sort_texts}

abbrev pub event_count : String
event_count = "event_count"

abbrev pub value_count : String
value_count = "value_count"

abbrev pub temporal : String
temporal = "temporal"

abbrev pub temporal_ordered : String
temporal_ordered = "temporal_ordered"

pub record CorrelationSpec : Type 0 where
  pub kind : String  -- Type
  pub rules : List String
  pub group_by : List String
  pub value_field : String
  pub timespan_seconds : ℕ
  pub threshold : ℕ

pub record CorrelationObservation : Type 0 where
  pub tenant_id : String
  pub rule_id : String
  pub rule_version : String
  pub group_key : String
  pub source_rule_ids : List String
  pub event_id : String
  pub event_time : ℕ
  pub value : String
  pub spec : CorrelationSpec

pub record CorrelationRecord : Type 0 where
  pub source_rule_id : String
  pub event_id : String
  pub event_time : ℕ
  pub value : String

pub record CorrelationEvaluation : Type 0 where
  pub satisfied : Bool
  pub triggered : Bool
  pub count : ℕ
  pub distinct_values : ℕ
  pub event_ids : List String

abbrev pub no_evaluation : CorrelationEvaluation
no_evaluation = record {
  satisfied = false;
  triggered = false;
  count = 0;
  distinct_values = 0;
  event_ids = [];
}

unfoldable pub event_ids_of : List CorrelationRecord → List String
event_ids_of [] = []
event_ids_of (r ∷ rs) = r.event_id ∷ event_ids_of rs

unfoldable pub values_of : List CorrelationRecord → List String
values_of [] = []
values_of (r ∷ rs) = r.value ∷ values_of rs

unfoldable pub unique_event_ids : List CorrelationRecord → List String
unfolding append_new event_ids_of
unique_event_ids records = append_new [] (event_ids_of records)

-- The keys of `values`: the values that are not empty, each once.
unfoldable pub distinct_values_of : List CorrelationRecord → List String
unfolding append_new values_of
distinct_values_of records = append_new [] (values_of records)

unfoldable pub bounded_correlation_ids : List String → List String
bounded_correlation_ids ids = if leb (length ids) 1000 then ids else take 1000 ids

unfoldable pub trimmed : List String → List String
unfolding trim_space
trimmed [] = []
trimmed (x ∷ xs) = trim_space x ∷ trimmed xs

unfoldable pub unique_strings : List String → List String
unfolding append_new trimmed sort_texts
unique_strings values = sort_texts (append_new [] (trimmed values))
