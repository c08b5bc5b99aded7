-- ===== src/Examples/Sigma.antt =====
-- The properties of the rule compiler at concrete inputs.
use kazutb_siem.Base.Text.{equal_fold}
use kazutb_siem.Base.{
  false, has, ◌==◌, if◌then◌else◌, ℕ, String, ◌≡◌, refl, inl, inr, Option, none, some, List, [],
  ◌∷◌,
}
use kazutb_siem.Sigma.Compile.{
  sigma_rule, compile, SigmaDocument, DetectionContent, Libraries, CompiledRule, matching,
}
use kazutb_siem.Sigma.WellFormed.{compile-IsCompiled, IsCompiled}
use kazutb_siem.Base.Int.{pos}
use kazutb_siem.Core.{null, end, field, obj, invalid_rule, err, arr, cons, text, nil, Value, ok}
use kazutb_siem.Correlation.Records.{CorrelationSpec}
use kazutb_siem.Sigma.Condition.{Condition, selection, negation, binary}
use kazutb_siem.Sigma.Parser.{close, peek, parse_name, parse_tokens}
use kazutb_siem.Sigma.RoundTrip.{emit, parse_tokens-emit}
use kazutb_siem.Sigma.Sound.{Ends, parse_tokens-Ends, ReadsOr}
use kazutb_siem.Sigma.Correlation.{compile_correlation, SigmaCorrelation}
use kazutb_siem.Sigma.Bounds.{compile_correlation-IsBounded, IsBounded}

abbrev names : List String
names = "login" ∷ "admin" ∷ []

-- (login and not admin) or admin
abbrev condition : Condition
condition =
    binary "or" (binary "and" (selection "login") (negation (selection "admin")))
      (selection "admin")

parse_tokens-emit_example : parse_tokens names (emit condition) ≡ ok condition
unfolding emit has equal_fold
parse_tokens-emit_example =
    parse_tokens-emit names condition
      (inr refl, (inl refl, (refl, refl, refl), (refl, refl, refl)), (refl, refl, refl))

-- login and not admin or admin
abbrev tokens : List String
tokens = "login" ∷ "AND" ∷ "not" ∷ "admin" ∷ "or" ∷ "admin" ∷ []

-- `and` binds more tightly than `or`.
precedence : parse_tokens names tokens ≡ ok condition
unfolding parse_tokens peek parse_name
precedence = refl

parse_tokens-Ends_example : Ends (λ c. ReadsOr names c tokens []) (parse_tokens names tokens)
parse_tokens-Ends_example = parse_tokens-Ends names tokens

-- A sequence of two failed logins and a success within five minutes, by user.
abbrev spraying : SigmaCorrelation
spraying = record {
  kind = "Temporal-Ordered";
  rules = arr (cons (text "failed") (cons (text " failed ") (cons (text "success") nil)));
  group_by = "user.name" ∷ [];
  timespan = "5m";
  gte = 0;
  value_field = "";
}

abbrev sprint : Value → String
sprint value = ""

abbrev minutes : String → Option ℕ
minutes d = if d == "5m" then some 300000000000 else none

abbrev compiled_spraying : CorrelationSpec
compiled_spraying = record {
  kind = "temporal_ordered";
  rules = "failed" ∷ "success" ∷ [];
  group_by = "user.name" ∷ [];
  value_field = "";
  timespan_seconds = 300;
  threshold = 2;
}

compiled : compile_correlation sprint minutes "spraying" spraying ≡ ok compiled_spraying
unfolding compile_correlation
compiled = refl

compile_correlation-IsBounded_example : IsBounded "spraying" compiled_spraying
compile_correlation-IsBounded_example =
    compile_correlation-IsBounded sprint minutes "spraying" spraying compiled_spraying compiled

-- A rule with two selections and the condition `1 of them`, and one that the decoder refuses.
abbrev document : SigmaDocument
document = record {
  title = "Root login";
  id = " root-login ";
  description = "";
  author = null;
  level = "high";
  confidence = pos 0;
  tags = "attack.t1078" ∷ [];
  false_positives = [];
  log_source = end;
  detection = field "login" (obj (field "category" (text "authentication") end)) (
      field "admin" (obj (field "user.name|contains" (text "root") end))
        (field "condition" (text "1 of them") end));
  correlation = none;
}

abbrev library : Libraries
library = record {
  decode_yaml = λ yaml. if yaml == "root" then ok document else err invalid_rule;
  sprint = sprint;
  parse_duration = minutes;
}

abbrev content : DetectionContent
content = record {
  rule_id = "root-login";
  version = "1.0.0";
  state = "DRAFT";
  sigma_yaml = "root";
  updated_at = 5;
}

abbrev root_login : CompiledRule
root_login = record {
  rule = sigma_rule library content document;
  body =
      matching
        ((
          "admin",
          (record {
            field_name = "user.name";
            modifier = "contains";
            every = false;
            expected = "root" ∷ [];
          }
                ∷ [])
              ∷ [],
        )
          ∷ (
            "login",
            (record {
              field_name = "category";
              modifier = "equals";
              every = false;
              expected = "authentication" ∷ [];
            }
                  ∷ [])
                ∷ [],
          )
          ∷ [])
        (binary "or" (selection "admin") (selection "login"));
}

compiled_root : compile library content ≡ ok root_login
unfolding compile peek parse_name close
compiled_root = refl

compile-IsCompiled_example : IsCompiled root_login
compile-IsCompiled_example = compile-IsCompiled library content root_login compiled_root
