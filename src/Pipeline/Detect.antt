-- ===== src/Pipeline/Detect.antt =====
-- suspiciousPowerShell, contextFactors, observeAuthenticationFailure, and detect for a repository
-- without the optional ports (published content, threat intelligence, behavior baselines), as the
-- repository in memory is.
use kazutb_siem.Base.{
  ℕ, String, Bool, true, false, ◌&&◌, not, Option, List, [], ◌∷◌, ◌++◌, ◌==◌, leb, eqb,
  if◌then◌else◌, length, has,
}
use kazutb_siem.Base.Int.{pos, ltb_ℤ}
use kazutb_siem.Base.Text.{◌<>◌, to_lower, equal_fold, contains}
use kazutb_siem.Core.{CanonicalEvent, RiskFactor, DetectionRule, Error, Result, wrap, ok, err}
use kazutb_siem.Correlation.Records.{
  event_count, no_evaluation, CorrelationObservation, CorrelationEvaluation,
}
use kazutb_siem.Correlation.Observe.{observe_correlation, MemoryCorrelationStore}
use kazutb_siem.Pipeline.Rules.{
  powershell_rule_id, auth_rule_id, auth_base_rule_id, powershell_rule, auth_rule,
}
use kazutb_siem.Pipeline.Normalize.{Encoder}

pub record DetectionMatch : Type 0 where
  pub rule : DetectionRule
  pub matched_fields : List String
  pub factors : List RiskFactor
  pub event_ids : List String
  pub dedup_discriminator : String
  pub reference_id : String

unfoldable pub factor : String → String → ℕ → String → RiskFactor
factor code label delta reference = record {
  code = code;
  label = label;
  delta = pos delta;
  source_reference = reference;
}

pub record Token : Type 0 where
  pub value : String
  pub code : String
  pub label : String
  pub delta : ℕ

abbrev pub token : String → String → String → ℕ → Token
token value code label delta = record { value = value; code = code; label = label; delta = delta }

unfoldable pub tokens : List Token
tokens =
    token "encodedcommand" "encoded_command" "Encoded PowerShell command" 15
    ∷ token " -enc " "encoded_command" "Encoded PowerShell command" 15
    ∷ token "frombase64string" "base64_decode" "In-memory Base64 decoding" 12
    ∷ token "downloadstring" "download_cradle" "PowerShell download cradle" 12
    ∷ token "invoke-webrequest" "web_request" "PowerShell web request" 10
    ∷ token " iwr " "web_request" "PowerShell web request alias" 10
    ∷ token "iex " "dynamic_execution" "Dynamic command execution" 10
    ∷ []

-- The loop over the tokens, from the codes that were found.
unfoldable pub token_factors : String → List Token → List String → List RiskFactor
unfolding contains has factor
token_factors command [] seen = []
token_factors command (t ∷ ts) seen = elim (contains command t.value && not (has t.code seen)) [
  | true ↦
      factor t.code t.label t.delta "process.command_line"
      ∷ token_factors command ts (t.code ∷ seen)
  | false ↦ token_factors command ts seen
]

-- The factors; each has the matched field "process.command_line".
unfoldable pub suspicious_powershell : CanonicalEvent → List RiskFactor
unfolding to_lower contains tokens token_factors
suspicious_powershell event =
    let name = to_lower event.process.name in
    if not (contains name "powershell") && not (contains name "pwsh")
    then []
    else token_factors (" " <> to_lower event.process.command_line <> " ") tokens []

unfoldable pub command_line_fields : List RiskFactor → List String
command_line_fields [] = []
command_line_fields (f ∷ fs) = "process.command_line" ∷ command_line_fields fs

unfoldable pub context_factors : CanonicalEvent → List RiskFactor
unfolding factor
context_factors event =
    (if not (ltb_ℤ event.device.criticality (pos 4))
      then factor "critical_asset" "Critical university asset" 20 event.device.hostname ∷ []
      else [])
    ++ (if event.user.is_privileged
        then factor "privileged_user" "Privileged identity involved" 15 event.user.name ∷ []
        else [])

unfoldable pub powershell_match : ℕ → CanonicalEvent → List DetectionMatch
unfolding suspicious_powershell command_line_fields context_factors factor powershell_rule
powershell_match built event =
    let found = suspicious_powershell event in
    if eqb (length found) 0
    then []
    else record {
      rule = powershell_rule built;
      matched_fields = command_line_fields found;
      factors =
          factor "base_severity" "High-confidence process detection" 30 powershell_rule_id
            ∷ factor "rule_confidence" "Validated rule confidence" 20 "KCSP-WIN-PS-001@1.0.0"
            ∷ found
          ++ context_factors event;
      event_ids = event.id ∷ [];
      dedup_discriminator = "";
      reference_id = "";
    }
      ∷ []

-- The address that the failures are counted by; "" if there is none.
unfoldable pub failure_source : CanonicalEvent → String
failure_source event =
    if event.src_endpoint.ip == "" then event.device.ip else event.src_endpoint.ip

unfoldable pub failure_observation : Encoder → CanonicalEvent → CorrelationObservation
unfolding failure_source
failure_observation encoder event = record {
  tenant_id = event.tenant_id;
  rule_id = auth_rule_id;
  rule_version = "1.0.0";
  group_key = encoder.group_parts (("src_endpoint.ip", failure_source event ∷ []) ∷ []);
  source_rule_ids = auth_base_rule_id ∷ [];
  event_id = event.id;
  event_time = event.event_time;
  value = event.user.name;
  spec = record {
    kind = event_count;
    rules = auth_base_rule_id ∷ [];
    group_by = "src_endpoint.ip" ∷ [];
    value_field = "";
    timespan_seconds = 300;
    threshold = 5;
  };
}

unfoldable pub is_authentication_failure : CanonicalEvent → Bool
unfolding equal_fold failure_source
is_authentication_failure event =
    equal_fold event.category "authentication"
    && equal_fold event.security_result.outcome "failure"
    && not (failure_source event == "")

unfoldable pub observe_authentication_failure :
    Encoder
    → Option Error
    → CanonicalEvent
    → MemoryCorrelationStore
    → Result CorrelationEvaluation × MemoryCorrelationStore
unfolding is_authentication_failure failure_observation observe_correlation
observe_authentication_failure encoder ctx event m =
    if is_authentication_failure event
    then observe_correlation ctx encoder.codec (failure_observation encoder event) m
    else (ok no_evaluation, m)

unfoldable pub threshold_match : ℕ → CanonicalEvent → CorrelationEvaluation → List DetectionMatch
unfolding factor failure_source context_factors auth_rule
threshold_match built event evaluation =
    if not evaluation.triggered
    then []
    else record {
      rule = auth_rule built;
      matched_fields = "security_result.outcome" ∷ "src_endpoint.ip" ∷ "user.name" ∷ [];
      factors =
          factor "base_severity" "Authentication threshold reached" 35 auth_rule_id
            ∷ factor "rule_confidence" "Threshold confidence" 20 "KCSP-AUTH-THRESHOLD-001@1.0.0"
            ∷ (if leb 3 evaluation.distinct_values
                then factor "multiple_accounts" "Multiple accounts targeted" 15
                    (failure_source event)
                  ∷ []
                else [])
          ++ context_factors event;
      event_ids = evaluation.event_ids;
      dedup_discriminator = "";
      reference_id = "";
    }
      ∷ []

-- `built` is the time at which New made the rules.
unfoldable pub detect :
    Encoder
    → Option Error
    → ℕ
    → CanonicalEvent
    → MemoryCorrelationStore
    → Result (List DetectionMatch) × MemoryCorrelationStore
unfolding powershell_match observe_authentication_failure threshold_match
detect encoder ctx built event m =
    let (threshold, m') = observe_authentication_failure encoder ctx event m in
    elim threshold [
      | err e ↦ (err (wrap "evaluate authentication threshold" e), m')
      | ok evaluation ↦
          (ok (powershell_match built event ++ threshold_match built event evaluation), m')
    ]
