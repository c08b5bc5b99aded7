-- ===== src/Store/Reachable.antt =====
-- The states that the embedded store can reach: a step is a call of one of its methods that writes,
-- for one tenant, with whatever arguments.
use kazutb_siem.Base.{ℕ, String, ◌≡◌, none, List}
use kazutb_siem.Base.Map.{lookup₂}
use kazutb_siem.Core.{
  CanonicalEvent, DetectionRule, Finding, Alert, Incident, AuditEntry, Result, ok,
}
use kazutb_siem.Store.State.{new_memory, reset_tenant, Memory}
use kazutb_siem.Store.Rules.{set_rules}
use kazutb_siem.Store.Events.{put_event, put_finding}
use kazutb_siem.Store.Alerts.{upsert_alert, mutate_alert}
use kazutb_siem.Store.Incidents.{store_incident, mutate_incident}
use kazutb_siem.Store.Audit.{Codec, append_audit}
use kazutb_siem.Store.WellFormed.{new_memory-IsWellFormed, IsWellFormed}
use kazutb_siem.Store.Preservation.{
  put_event-IsWellFormed, put_finding-IsWellFormed, upsert_alert-IsWellFormed,
  store_incident-IsWellFormed, mutate_alert-IsWellFormed, mutate_incident-IsWellFormed,
  reset_tenant-IsWellFormed, append_audit-IsWellFormed, set_rules-IsWellFormed,
}

pub data Step (c : Codec) : String → Memory → Memory → Type 0 where
  puts_event : (e : CanonicalEvent) (m : Memory) → Step c e.tenant_id m (put_event e m).1
  puts_finding : (f : Finding) (m : Memory) → Step c f.tenant_id m (put_finding f m)
  upserts_alert :
      (a : Alert) (key : String) (window : ℕ) (m : Memory)
      → Step c a.tenant_id m (upsert_alert a key window m).1
  mutates_alert :
      (t id : String) (expected now : ℕ) (f : Alert → Result Alert) (m : Memory)
      → Step c t m (mutate_alert t id expected f now m).1
  stores_incident : (i : Incident) (m : Memory) → Step c i.tenant_id m (store_incident i m).1
  mutates_incident :
      (t id : String) (expected now : ℕ) (f : Incident → Result Incident) (m : Memory)
      → Step c t m (mutate_incident t id expected f now m).1
  appends_audit :
      (new_id : String) (now : ℕ) (e : AuditEntry) (m : Memory)
      → Step c e.tenant_id m (append_audit c new_id now e m).1
  resets : (t : String) (m : Memory) → Step c t m (reset_tenant t m)
  sets_rules :
      (t : String) (rules : List DetectionRule) (m : Memory) → Step c t m (set_rules rules m)

pub data Reach (c : Codec) (m : Memory) : Memory → Type 0 where
  here : Reach c m m
  next : {n p : Memory} (t : String) → Reach c m n → Step c t n p → Reach c m p

-- The change keeps the alert's tenant and identifier.
abbrev pub KeepsAlert : (Alert → Result Alert) → Type 0
KeepsAlert mutate = (a b : Alert) → mutate a ≡ ok b → (b.tenant_id ≡ a.tenant_id) × (b.id ≡ a.id)

abbrev pub KeepsIncident : (Incident → Result Incident) → Type 0
KeepsIncident mutate =
    (a b : Incident) → mutate a ≡ ok b → (b.tenant_id ≡ a.tenant_id) × (b.id ≡ a.id)

-- What UpsertAlert, MutateAlert and MutateIncident leave to their callers.
abbrev pub IsProper : {c : Codec} {t : String} {m n : Memory} → Step c t m n → Type 0
IsProper (puts_event e m) = Unit
IsProper (puts_finding f m) = Unit
IsProper (upserts_alert a key window m) = lookup₂ a.tenant_id a.id m.alerts ≡ none
IsProper (mutates_alert t id expected now f m) = KeepsAlert f
IsProper (stores_incident i m) = Unit
IsProper (mutates_incident t id expected now f m) = KeepsIncident f
IsProper (appends_audit new_id now e m) = Unit
IsProper (resets t m) = Unit
IsProper (sets_rules t rules m) = Unit

abbrev pub AllProper : {c : Codec} {m n : Memory} → Reach c m n → Type 0
AllProper here = Unit
AllProper (next t r s) = AllProper r × IsProper s

Step-IsWellFormed :
    {c : Codec} {t : String} {m n : Memory} (s : Step c t m n)
    → IsProper s
    → IsWellFormed m
    → IsWellFormed n
Step-IsWellFormed (puts_event e m) p w = put_event-IsWellFormed e m w
Step-IsWellFormed (puts_finding f m) p w = put_finding-IsWellFormed f m w
Step-IsWellFormed (upserts_alert a key window m) p w = upsert_alert-IsWellFormed a key window m p w
Step-IsWellFormed (mutates_alert t id expected now f m) p w =
    mutate_alert-IsWellFormed t id expected now f m p w
Step-IsWellFormed (stores_incident i m) p w = store_incident-IsWellFormed i m w
Step-IsWellFormed (mutates_incident t id expected now f m) p w =
    mutate_incident-IsWellFormed t id expected now f m p w
Step-IsWellFormed (appends_audit new_id now e m) p w = append_audit-IsWellFormed m w _ new_id now e
Step-IsWellFormed (resets t m) p w = reset_tenant-IsWellFormed t m w
Step-IsWellFormed (sets_rules t rules m) p w = set_rules-IsWellFormed m w rules

-- After any sequence of the store's methods that starts with an empty store, for whatever tenants,
-- the maps are well formed, provided that each UpsertAlert brought an alert whose identifier the
-- tenant had not, and each MutateAlert and MutateIncident was given a function that keeps the
-- tenant and the identifier.
pub Reach-IsWellFormed :
    {c : Codec} {m : Memory} (r : Reach c new_memory m) → AllProper r → IsWellFormed m
Reach-IsWellFormed here p = new_memory-IsWellFormed
Reach-IsWellFormed (next t r s) p = Step-IsWellFormed s p.1 (Reach-IsWellFormed r p.0)
