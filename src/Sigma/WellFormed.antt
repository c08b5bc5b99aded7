-- ===== src/Sigma/WellFormed.antt =====
-- What a rule that compiles keeps to.
use kazutb_siem.Base.{
  ℕ, ◌&&◌, ◌||◌, Option, List, ◌≤◌, String, ◌≡◌, subst, inl, inr, false, not, arith, ◌==◌, eqb,
  Option-cases, length,
}
use kazutb_siem.Base.Int.{ℤ, pos, negsuc, ◌≤ℤ◌}
use kazutb_siem.Base.Map.{keys}
use kazutb_siem.Base.Text.{trim_space}
use kazutb_siem.Core.{Result-cases, Holds, Holds-bind, Holds-after, Holds-guard, Value, Fields, ok}
use kazutb_siem.Soc.Lifecycle.{sort_texts}
use kazutb_siem.Sigma.Condition.{tokenize_condition}
use kazutb_siem.Sigma.Quantifiers.{expand_quantifiers}
use kazutb_siem.Sigma.Parser.{parse_tokens, parse_condition}
use kazutb_siem.Sigma.Sound.{Refers, parse_tokens-Refers}
use kazutb_siem.Sigma.Bounds.{compile_correlation-IsBounded, IsBounded}
use kazutb_siem.Sigma.Compile.{
  compile_selected, sigma_rule, compile_document, compile, DetectionContent, compile_selections,
  condition_text, compile_matching, compile_body, sigma_confidence, SigmaDocument, Libraries, Body,
  CompiledRule, matching, correlating,
}
use kazutb_siem.Sigma.Correlation.{compile_correlation, SigmaCorrelation}

-- A condition over the selections of the rule, of which there are some, or a bounded correlation.
abbrev pub IsBody : String → Body → Type 0
IsBody id (matching selections condition) =
    (1 ≤ length selections) × Refers (keys selections) condition
IsBody id (correlating spec) = IsBounded id spec

pub record IsCompiled (compiled : CompiledRule) : Type 0 where
  pub named : (compiled.rule.id == "") ≡ false
  pub titled : (compiled.rule.title == "") ≡ false
  pub versioned : (compiled.rule.version == "") ≡ false
  pub confident : (pos 1 ≤ℤ compiled.rule.confidence) × (compiled.rule.confidence ≤ℤ pos 100)
  pub sound : IsBody compiled.rule.id compiled.body

sigma_confidence_lem :
    (confidence : ℤ)
    → (pos 1 ≤ℤ sigma_confidence confidence) × (sigma_confidence confidence ≤ℤ pos 100)
unfolding sigma_confidence
sigma_confidence_lem (pos n) = ground arith
sigma_confidence_lem (negsuc n) = ground arith

parse_condition_lem :
    (names : List String) (input : String) → Holds (Refers names) (parse_condition names input)
unfolding parse_condition
parse_condition_lem names input =
    elim (Result-cases (parse_tokens names (tokenize_condition input))) [
      | inl (failure, e) ↦ rw e tt
      | inr (node, e) ↦ rw e (parse_tokens-Refers names (tokenize_condition input) node e)
    ]

matching-IsBody :
    (sprint : Value → String) (id : String) (detection : Fields)
    → Holds (IsBody id) (compile_matching sprint detection)
unfolding compile_matching compile_selected
matching-IsBody sprint id detection =
    Holds-after (IsBody id) (condition_text detection) _ (λ condition.
      Holds-after (IsBody id) (compile_selections sprint detection) _ (λ selections.
        Holds-guard (IsBody id) (eqb (length selections) 0) _ _ (λ some_selection.
          Holds-after (IsBody id) (expand_quantifiers (sort_texts (keys selections)) condition) _
            (λ expanded.
              Holds-bind (Refers (keys selections)) (IsBody id)
                (parse_condition (keys selections) expanded) _
                (parse_condition_lem (keys selections) expanded)
                (λ node refers. (ground (arith, some_selection), refers))))))

correlating-IsBody :
    (sprint : Value → String) (parse_duration : String → Option ℕ) (id : String)
    (document : SigmaCorrelation)
    → Holds (IsBounded id) (compile_correlation sprint parse_duration id document)
correlating-IsBody sprint parse_duration id document =
    elim (Result-cases (compile_correlation sprint parse_duration id document)) [
      | inl (failure, e) ↦ rw e tt
      | inr (spec, e) ↦
          rw e (compile_correlation-IsBounded sprint parse_duration id document spec e)
    ]

body_lem :
    (lib : Libraries) (id : String) (document : SigmaDocument)
    → Holds (IsBody id) (compile_body lib id document)
unfolding compile_body
body_lem lib id document = elim (Option-cases document.correlation) [
  | inl matches ↦ rw matches (matching-IsBody lib.sprint id document.detection)
  | inr (correlation, correlates) ↦ rw correlates (
      Holds-bind (IsBounded id) (IsBody id)
        (compile_correlation lib.sprint lib.parse_duration id correlation) _
        (correlating-IsBody lib.sprint lib.parse_duration id correlation) (λ spec bounded. bounded))
]

document_lem :
    (lib : Libraries) (content : DetectionContent) (document : SigmaDocument)
    → Holds IsCompiled (compile_document lib content document)
unfolding compile_document sigma_rule
document_lem lib content document =
    let id = trim_space document.id in
    Holds-guard IsCompiled (id == "" || trim_space document.title == "") _ _ (λ names.
      Holds-guard IsCompiled (not (content.rule_id == "") && not (content.rule_id == id)) _ _
        (λ same. Holds-guard IsCompiled (trim_space content.version == "") _ _ (λ version.
          Holds-bind (IsBody id) IsCompiled (compile_body lib id document) _
            (body_lem lib id document)
            (λ body sound. record {
              named = ground (arith, names);
              titled = ground (arith, names);
              versioned = version;
              confident = sigma_confidence_lem document.confidence;
              sound = sound;
            }))))

-- Whatever the YAML decoder answers, a rule that compiles has an identifier, a title and a version, a
-- confidence from 1 to 100, and either a condition over its own selections, of which there are some,
-- or a correlation within the bounds.
pub compile-IsCompiled :
    (lib : Libraries) (content : DetectionContent) (compiled : CompiledRule)
    → compile lib content ≡ ok compiled
    → IsCompiled compiled
unfolding compile
compile-IsCompiled lib content compiled e =
    elim (Result-cases (lib.decode_yaml content.sigma_yaml)) [
      | inl (failure, f) ↦ absurd (ground (arith, e, f))
      | inr (document, f) ↦
          subst (Holds IsCompiled) {y = ok compiled} (ground (arith, e, f))
            (document_lem lib content document)
    ]
