-- ===== src/Sigma/Correlation.antt =====
-- compileCorrelation. time.ParseDuration is an argument; it returns nanoseconds, and nothing at a
-- text that is no duration. A negative duration and a negative `gte` count as 0, which the bounds
-- refuse too.
use Prim.Native.Char.{Char}
use kazutb_siem.Base.{
  ℕ, ◌/◌, String, Bool, true, false, ◌&&◌, ◌||◌, not, Option, none, some, List, [], ◌∷◌, ◌++◌, ◌==◌,
  ltb, eqb, if◌then◌else◌, length, has,
}
use kazutb_siem.Base.Text.{trim_space, to_lower, byte_length, replace_char}
use kazutb_siem.Core.{Result, Value, invalid_rule, wrap, ok, err, ◌>>=◌}
use kazutb_siem.Correlation.Records.{
  CorrelationSpec, event_count, value_count, temporal, temporal_ordered,
}
use kazutb_siem.Sigma.Values.{scalar_values}

pub record SigmaCorrelation : Type 0 where
  pub kind : String  -- type
  pub rules : Value
  pub group_by : List String
  pub timespan : String
  pub gte : ℕ
  pub value_field : String  -- condition.field

abbrev hyphen : Char
hyphen = "-"

abbrev underscore : Char
underscore = "_"

unfoldable pub type_name : String → String
unfolding to_lower replace_char trim_space
type_name kind = to_lower (replace_char hyphen underscore (trim_space kind))

abbrev pub is_count : String → Bool
is_count kind = kind == event_count || kind == value_count

abbrev pub is_temporal : String → Bool
is_temporal kind = kind == temporal || kind == temporal_ordered

-- The loop over the rule references, from those that were found.
unfoldable pub rule_references : String → List String → List String → Result (List String)
unfolding trim_space has
rule_references rule_id found [] = ok found
rule_references rule_id found (raw ∷ rest) =
    elim (trim_space raw == "" || trim_space raw == rule_id) [
      | true ↦ err (
          wrap "correlation rule references must be non-empty and cannot reference itself"
            invalid_rule)
      | false ↦
          rule_references rule_id
            (if has (trim_space raw) found then found else found ++ trim_space raw ∷ []) rest
    ]

unfoldable pub group_fields : List String → Result (List String)
unfolding trim_space byte_length
group_fields [] = ok []
group_fields (raw ∷ rest) = elim (trim_space raw == "" || ltb 128 (byte_length (trim_space raw))) [
  | true ↦ err (wrap "correlation.group-by contains an invalid field" invalid_rule)
  | false ↦ group_fields rest >>= λ others. ok (trim_space raw ∷ others)
]

-- The threshold that the condition gives, or the number of rules.
unfoldable pub threshold_of : String → ℕ → List String → Result ℕ
threshold_of kind gte rules =
    if is_count kind
    then if ltb gte 2 || ltb 1000000 gte
      then err (wrap "count correlation condition.gte must be between 2 and 1000000" invalid_rule)
      else ok gte
    else ok (length rules)

-- The duration in nanoseconds, from one second to a day.
unfoldable pub timespan_of : Option ℕ → Result ℕ
timespan_of none = err (wrap "correlation.timespan must be between 1s and 24h" invalid_rule)
timespan_of (some timespan) =
    if ltb timespan 1000000000 || ltb 86400000000000 timespan
    then err (wrap "correlation.timespan must be between 1s and 24h" invalid_rule)
    else ok timespan

-- The last test and the specification.
unfoldable pub counted_spec :
    String → SigmaCorrelation → List String → ℕ → List String → ℕ → Result CorrelationSpec
unfolding trim_space
counted_spec kind document rules timespan group_by threshold =
    if kind == value_count && trim_space document.value_field == ""
    then err (wrap "value_count correlation requires condition.field" invalid_rule)
    else ok (record {
      kind = kind;
      rules = rules;
      group_by = group_by;
      value_field = trim_space document.value_field;
      timespan_seconds = timespan / 1000000000;
      threshold = threshold;
    })

-- From the fields of the group on.
unfoldable pub grouped_spec :
    String → SigmaCorrelation → List String → ℕ → List String → Result CorrelationSpec
unfolding threshold_of counted_spec
grouped_spec kind document rules timespan group_by =
    if ltb 8 (length group_by)
    then err (wrap "correlation.group-by supports at most 8 fields" invalid_rule)
    else threshold_of kind document.gte rules >>= counted_spec kind document rules timespan group_by

-- From the timespan on.
unfoldable pub spanned_spec : String → SigmaCorrelation → List String → ℕ → Result CorrelationSpec
unfolding group_fields grouped_spec
spanned_spec kind document rules timespan =
    group_fields document.group_by >>= grouped_spec kind document rules timespan

-- From the rule references on.
unfoldable pub correlation_spec :
    (String → Option ℕ) → String → SigmaCorrelation → List String → Result CorrelationSpec
unfolding trim_space timespan_of spanned_spec
correlation_spec parse_duration kind document rules =
    if eqb (length rules) 0 || ltb 32 (length rules)
    then err (wrap "correlation requires between 1 and 32 unique rule references" invalid_rule)
    else if is_temporal kind && ltb (length rules) 2
    then err (wrap "temporal correlation requires at least two rule references" invalid_rule)
    else timespan_of (parse_duration (trim_space document.timespan))
      >>= spanned_spec kind document rules

unfoldable pub compile_correlation :
    (Value → String) → (String → Option ℕ) → String → SigmaCorrelation → Result CorrelationSpec
unfolding type_name scalar_values rule_references correlation_spec
compile_correlation sprint parse_duration rule_id document =
    let kind = type_name document.kind in
    if not (is_count kind || is_temporal kind)
    then err (wrap "unsupported correlation type" invalid_rule)
    else elim (scalar_values sprint document.rules) [
      | err e ↦ err (wrap "correlation.rules" invalid_rule)
      | ok raw_rules ↦ rule_references rule_id [] raw_rules >>= λ rules.
          correlation_spec parse_duration kind document rules
    ]
