-- ===== src/Sigma/Compile.antt =====
-- Compile and CompiledRule. The decoding of YAML, fmt.Sprint and time.ParseDuration are arguments.
-- Go walks its maps in no fixed order; the model takes their entries in the order of the document,
-- which can only change which of several errors is returned.
use kazutb_siem.Base.{
  ℕ, String, ◌&&◌, ◌||◌, not, Option, none, some, List, [], ◌∷◌, ◌++◌, ◌==◌, eqb, if◌then◌else◌,
  length, keep, has,
}
use kazutb_siem.Base.Int.{ltb_ℤ, ℤ, pos}
use kazutb_siem.Base.Map.{Map, insert, keys}
use kazutb_siem.Base.Text.{trim_space, to_upper, to_lower, has_prefix, joined, trim_prefix}
use kazutb_siem.Core.{
  ◌>>=◌, Severity, severity_critical, severity_high, severity_medium, severity_low,
  severity_informational, Value, Fields, CanonicalEvent, text, arr, field, end, DetectionRule,
  Result, invalid_rule, wrap, ok, err,
}
use kazutb_siem.Store.State.{append_new}
use kazutb_siem.Soc.Lifecycle.{sort_texts}
use kazutb_siem.Correlation.Records.{CorrelationSpec}
use kazutb_siem.Sigma.Values.{field_at, sprint_items}
use kazutb_siem.Sigma.Selection.{Selection, compile_selection, evaluate_selection}
use kazutb_siem.Sigma.Quantifiers.{expand_quantifiers}
use kazutb_siem.Sigma.Condition.{Condition, evaluate}
use kazutb_siem.Sigma.Parser.{parse_condition}
use kazutb_siem.Sigma.Correlation.{SigmaCorrelation, compile_correlation}

pub record SigmaDocument : Type 0 where
  pub title : String
  pub id : String
  pub description : String
  pub author : Value
  pub level : String
  pub confidence : ℤ
  pub tags : List String
  pub false_positives : List String
  pub log_source : Fields
  pub detection : Fields
  pub correlation : Option SigmaCorrelation

-- What Compile reads of core.DetectionContent.
pub record DetectionContent : Type 0 where
  pub rule_id : String
  pub version : String
  pub state : String
  pub sigma_yaml : String
  pub updated_at : ℕ

pub record Libraries : Type 0 where
  pub decode_yaml : String → Result SigmaDocument
  pub sprint : Value → String
  pub parse_duration : String → Option ℕ

-- The two kinds of CompiledRule: `selections` and `condition`, or `correlation`.
pub data Body : Type 0 where
  matching : Map Selection → Condition → Body
  correlating : CorrelationSpec → Body

pub record CompiledRule : Type 0 where
  pub rule : DetectionRule
  pub body : Body

unfoldable pub sigma_severity : String → Severity
unfolding to_lower trim_space
sigma_severity level =
    let name = to_lower (trim_space level) in
    if name == "critical"
    then severity_critical
    else if name == "high"
    then severity_high
    else if name == "medium"
    then severity_medium
    else if name == "low"
    then severity_low
    else severity_informational

unfoldable pub technique : String → String
unfolding to_upper trim_prefix to_lower trim_space
technique tag = to_upper (trim_prefix (to_lower (trim_space tag)) "attack.")

unfoldable pub techniques_of : List String → List String
unfolding technique has_prefix
techniques_of [] = []
techniques_of (tag ∷ tags) =
    let rest = techniques_of tags in
    if has_prefix (technique tag) "T" then technique tag ∷ rest else rest

unfoldable pub sigma_techniques : List String → List String
unfolding sort_texts append_new techniques_of
sigma_techniques tags = sort_texts (append_new [] (techniques_of tags))

-- fmt.Sprint(logSource[key]), which writes a missing value as "<nil>"
unfoldable pub source_part : (Value → String) → Fields → String → String
unfolding field_at trim_space
source_part sprint log_source key = elim (field_at key log_source) [
  | none ↦ "<nil>"
  | some value ↦ trim_space (sprint value)
]

unfoldable pub sigma_data_sources : (Value → String) → Fields → List String
unfolding source_part keep joined
sigma_data_sources sprint log_source =
    let parts =
      keep (λ part. not (part == "") && not (part == "<nil>"))
        (source_part sprint log_source "category"
          ∷ source_part sprint log_source "product"
          ∷ source_part sprint log_source "service"
          ∷ []) in
    if eqb (length parts) 0 then [] else joined "/" parts ∷ []

unfoldable pub sigma_author : (Value → String) → Value → String
unfolding trim_space joined sprint_items
sigma_author sprint (text name) = trim_space name
sigma_author sprint (arr names) = joined ", " (sprint_items sprint names)
sigma_author sprint _ = "KCSP Detection Engineering"

-- The loop over document.Detection.
unfoldable pub compile_selections : (Value → String) → Fields → Result (Map Selection)
unfolding compile_selection insert
compile_selections sprint end = ok []
compile_selections sprint (field name raw rest) =
    let others = compile_selections sprint rest in
    if name == "condition" || name == "timeframe"
    then others
    else compile_selection sprint raw >>= λ chosen.
        others >>= λ selections. ok (insert name chosen selections)

unfoldable pub condition_text : Fields → Result String
unfolding field_at trim_space
condition_text detection = elim (field_at "condition" detection) [
  | some (text s) ↦
      if trim_space s == "" then err (wrap "detection.condition is required" invalid_rule) else ok s
  | _ ↦ err (wrap "detection.condition is required" invalid_rule)
]

-- From the selections on.
unfoldable pub compile_selected : String → Map Selection → Result Body
unfolding keys sort_texts expand_quantifiers parse_condition
compile_selected condition selections =
    if eqb (length selections) 0
    then err (wrap "at least one detection selection is required" invalid_rule)
    else expand_quantifiers (sort_texts (keys selections)) condition >>= λ expanded.
        parse_condition (keys selections) expanded >>= λ node. ok (matching selections node)

unfoldable pub compile_matching : (Value → String) → Fields → Result Body
unfolding condition_text compile_selections compile_selected
compile_matching sprint detection = condition_text detection >>= λ condition.
    compile_selections sprint detection >>= compile_selected condition

unfoldable pub compile_body : Libraries → String → SigmaDocument → Result Body
unfolding compile_matching compile_correlation
compile_body lib id document = elim document.correlation [
  | none ↦ compile_matching lib.sprint document.detection
  | some correlation ↦ compile_correlation lib.sprint lib.parse_duration id correlation >>= λ spec.
      ok (correlating spec)
]

unfoldable pub sigma_confidence : ℤ → ℤ
sigma_confidence confidence =
    if not (ltb_ℤ (pos 0) confidence) || ltb_ℤ (pos 100) confidence then pos 70 else confidence

unfoldable pub sigma_rule : Libraries → DetectionContent → SigmaDocument → DetectionRule
unfolding trim_space sigma_severity sigma_confidence sigma_techniques sigma_data_sources
    sigma_author
sigma_rule lib content document = record {
  id = trim_space document.id;
  title = trim_space document.title;
  description = trim_space document.description;
  version = trim_space content.version;
  severity = sigma_severity document.level;
  confidence = sigma_confidence document.confidence;
  mitre = sigma_techniques document.tags;
  required_data_sources = sigma_data_sources lib.sprint document.log_source;
  known_false_positives = document.false_positives;
  owner = sigma_author lib.sprint document.author;
  state = content.state;
  updated_at = content.updated_at;
}

unfoldable pub compile_document : Libraries → DetectionContent → SigmaDocument → Result CompiledRule
unfolding trim_space sigma_rule compile_body
compile_document lib content document =
    let id = trim_space document.id in
    if id == "" || trim_space document.title == ""
    then err (wrap "Sigma id and title are required" invalid_rule)
    else if not (content.rule_id == "") && not (content.rule_id == id)
    then err (wrap "route rule_id differs from Sigma id" invalid_rule)
    else if trim_space content.version == ""
    then err (wrap "rule version is required" invalid_rule)
    else compile_body lib id document >>= λ body.
        ok (record { rule = sigma_rule lib content document; body = body })

unfoldable pub compile : Libraries → DetectionContent → Result CompiledRule
unfolding compile_document
compile lib content = elim (lib.decode_yaml content.sigma_yaml) [
  | err e ↦ err (wrap "decode Sigma YAML" invalid_rule)
  | ok document ↦ compile_document lib content document
]

-- The results of the selections: those that match, with their fields.
unfoldable pub selection_results :
    (Value → String) → CanonicalEvent → Map Selection → Map (List String)
unfolding evaluate_selection
selection_results sprint event [] = []
selection_results sprint event ((name, chosen) ∷ rest) =
    let others = selection_results sprint event rest in
    elim (evaluate_selection sprint event chosen) [
      | none ↦ others
      | some matched ↦ (name, matched) ∷ others
    ]

unfoldable pub all_fields : Map (List String) → List String
all_fields [] = []
all_fields ((name, matched) ∷ rest) = matched ++ all_fields rest

-- Evaluate: the fields, if the rule matches.
unfoldable pub evaluate_rule : (Value → String) → CanonicalEvent → Body → Option (List String)
unfolding selection_results evaluate has keys sort_texts append_new all_fields
evaluate_rule sprint event (correlating spec) = none
evaluate_rule sprint event (matching selections condition) =
    let results = selection_results sprint event selections in
    if evaluate (λ name. has name (keys results)) condition
    then some (sort_texts (append_new [] (all_fields results)))
    else none
