-- ===== src/Store/State.antt =====
-- The fields of Memory, NewMemory, and the helpers that several of its methods share. The maps are
-- association lists; `dedup` and `audit_heads` read "" where a key is missing, as in Go.
use kazutb_siem.Base.{
  ℕ, String, ◌&&◌, not, none, some, List, [], ◌∷◌, ◌++◌, ◌==◌, ltb, eqb, if◌then◌else◌, has,
}
use kazutb_siem.Base.Map.{Map, lookup, insert, delete_if, values}
use kazutb_siem.Base.Text.{◌<>◌, has_prefix}
use kazutb_siem.Core.{CanonicalEvent, DetectionRule, Finding, Alert, Incident, AuditEntry}

pub record Memory : Type 0 where
  pub events : Map (Map CanonicalEvent)
  pub event_order : Map (List String)
  pub findings : Map (Map Finding)
  pub finding_order : Map (List String)
  pub alerts : Map (Map Alert)
  pub alert_order : Map (List String)
  pub dedup : Map String
  pub incidents : Map (Map Incident)
  pub incident_order : Map (List String)
  pub audit : Map (List AuditEntry)
  pub audit_heads : Map String
  pub rules : List DetectionRule

abbrev pub new_memory : Memory
new_memory = record {
  events = [];
  event_order = [];
  findings = [];
  finding_order = [];
  alerts = [];
  alert_order = [];
  dedup = [];
  incidents = [];
  incident_order = [];
  audit = [];
  audit_heads = [];
  rules = [];
}

-- m[k] of a map of slices: nil where the key is missing
unfoldable pub slice_at {ℓ} : {A : Type ℓ} → String → Map (List A) → List A
unfolding lookup
slice_at k m = elim (lookup k m) [ none ↦ [] | some xs ↦ xs ]

-- m[k] of a map of texts: "" where the key is missing
unfoldable pub text_at : String → Map String → String
unfolding lookup
text_at k m = elim (lookup k m) [ none ↦ "" | some s ↦ s ]

unfoldable pub ensure_tenant : String → Memory → Memory
unfolding lookup insert
ensure_tenant tenant m = elim (lookup tenant m.events) [
  | some _ ↦ m
  | none ↦ record m {
    events = insert tenant [] m.events;
    findings = insert tenant [] m.findings;
    alerts = insert tenant [] m.alerts;
    incidents = insert tenant [] m.incidents;
  }
]

unfoldable pub reset_tenant : String → Memory → Memory
unfolding insert delete_if has_prefix
reset_tenant tenant m = record m {
  events = insert tenant [] m.events;
  event_order = insert tenant [] m.event_order;
  findings = insert tenant [] m.findings;
  finding_order = insert tenant [] m.finding_order;
  alerts = insert tenant [] m.alerts;
  alert_order = insert tenant [] m.alert_order;
  incidents = insert tenant [] m.incidents;
  incident_order = insert tenant [] m.incident_order;
  audit = insert tenant [] m.audit;
  audit_heads = insert tenant "" m.audit_heads;
  dedup = delete_if (λ key. has_prefix key (tenant <> "|")) m.dedup;
}

unfoldable pub normalized_limit : ℕ → ℕ
normalized_limit value = if eqb value 0 then 100 else if ltb 500 value then 500 else value

-- The loop of appendUnique: `seen` starts with the texts of `values`.
unfoldable pub append_new : List String → List String → List String
unfolding has
append_new values [] = values
append_new values (x ∷ xs) =
    append_new (if not (x == "") && not (has x values) then values ++ x ∷ [] else values) xs
