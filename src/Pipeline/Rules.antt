-- ===== src/Pipeline/Rules.antt =====
-- New: the built-in rules and their publication.
use kazutb_siem.Base.{ℕ, String, Option, List, [], ◌∷◌}
use kazutb_siem.Base.Int.{pos}
use kazutb_siem.Core.{severity_high, severity_medium, DetectionRule, Error}
use kazutb_siem.Store.Action.{Action, wrapping}
use kazutb_siem.Store.Repository

abbrev pub powershell_rule_id : String
powershell_rule_id = "KCSP-WIN-PS-001"

abbrev pub auth_rule_id : String
auth_rule_id = "KCSP-AUTH-THRESHOLD-001"

abbrev pub threat_intel_rule_id : String
threat_intel_rule_id = "KCSP-TI-IOC-MATCH"

abbrev pub ueba_rule_id : String
ueba_rule_id = "KCSP-UEBA-BEHAVIOR-DEVIATION"

abbrev pub auth_base_rule_id : String
auth_base_rule_id = "KCSP-AUTH-FAILURE-BASE"

unfoldable pub powershell_rule : ℕ → DetectionRule
powershell_rule now = record {
  id = powershell_rule_id;
  title = "Suspicious PowerShell execution";
  description =
      "Detects encoded or download-oriented PowerShell command lines in process creation telemetry.";
  version = "1.0.0";
  severity = severity_high;
  confidence = pos 82;
  mitre = "T1059.001" ∷ [];
  required_data_sources = "Sysmon Event ID 1" ∷ "Windows process creation" ∷ [];
  known_false_positives = "Approved administration and software deployment tooling" ∷ [];
  owner = "KCSP Detection Engineering";
  state = "PUBLISHED";
  updated_at = now;
}

unfoldable pub auth_rule : ℕ → DetectionRule
auth_rule now = record {
  id = auth_rule_id;
  title = "Authentication failure threshold";
  description = "Detects five authentication failures from one source within five minutes.";
  version = "1.0.0";
  severity = severity_medium;
  confidence = pos 74;
  mitre = "T1110" ∷ [];
  required_data_sources = "AD" ∷ "VPN" ∷ "RADIUS" ∷ [];
  known_false_positives = "Stale credentials on a managed service or device" ∷ [];
  owner = "KCSP Detection Engineering";
  state = "PUBLISHED";
  updated_at = now;
}

unfoldable pub threat_intel_rule : ℕ → DetectionRule
threat_intel_rule now = record {
  id = threat_intel_rule_id;
  title = "Threat intelligence IOC match";
  description =
      "Matches canonical event observables against active, tenant-scoped threat indicators.";
  version = "1.0.0";
  severity = severity_medium;
  confidence = pos 70;
  mitre = [];
  required_data_sources = "Threat Intelligence" ∷ "Normalized security events" ∷ [];
  known_false_positives =
      "Shared infrastructure, stale intelligence, or low-confidence community feeds" ∷ [];
  owner = "KCSP Threat Intelligence";
  state = "PUBLISHED";
  updated_at = now;
}

unfoldable pub ueba_rule : ℕ → DetectionRule
ueba_rule now = record {
  id = ueba_rule_id;
  title = "Explainable behavior deviation";
  description =
      "Detects deterministic deviations from tenant-scoped rolling user and device baselines.";
  version = "1.0.0";
  severity = severity_high;
  confidence = pos 70;
  mitre = [];
  required_data_sources = "Normalized identity, endpoint, network, and process telemetry" ∷ [];
  known_false_positives =
      "Role changes, travel, onboarding, and newly deployed administrative tooling" ∷ [];
  owner = "KCSP UEBA";
  state = "PUBLISHED";
  updated_at = now;
}

unfoldable pub built_in_rules : ℕ → List DetectionRule
unfolding powershell_rule auth_rule threat_intel_rule ueba_rule
built_in_rules now =
    powershell_rule now ∷ auth_rule now ∷ threat_intel_rule now ∷ ueba_rule now ∷ []

-- `ctx` is the context's error; the rules of New are those of every engine that it returns.
unfoldable pub new_engine : Option Error → ℕ → Action (Unit {0})
unfolding built_in_rules
new_engine ctx now =
    wrapping "publish built-in detection rules" (Repository.set_rules ctx (built_in_rules now))
