-- ===== src/Store/Repository.antt =====
-- internal/store/repository.go: MemoryRepository puts a test of the request's context before each
-- method of Memory.
use kazutb_siem.Base.{ℕ, String, Bool, Option, List}
use kazutb_siem.Core.{
  DetectionRule, CanonicalEvent, Finding, Alert, Incident, AuditEntry, Error, Result, ok,
}
use kazutb_siem.Store.Action.{Action, alive, ◌>>◌}
use kazutb_siem.Store.Rules
use kazutb_siem.Store.Events
use kazutb_siem.Store.Events.{EventFilter}
use kazutb_siem.Store.Alerts
use kazutb_siem.Store.Alerts.{AlertFilter}
use kazutb_siem.Store.Incidents
use kazutb_siem.Store.Incidents.{IncidentFilter}
use kazutb_siem.Store.Audit
use kazutb_siem.Store.Audit.{Codec}

module _ (ctx : Option Error) where
  abbrev pub set_rules : List DetectionRule → Action (Unit {0})
  set_rules rules = alive ctx >> λ m. (ok tt, Rules.set_rules rules m)

  abbrev pub list_rules : Action (List DetectionRule)
  list_rules = alive ctx >> λ m. (ok (Rules.list_rules m), m)

  abbrev pub put_event : CanonicalEvent → Action (CanonicalEvent × Bool)
  put_event event = alive ctx >> λ m. let (r, m') = Events.put_event event m in (ok r, m')

  abbrev pub get_event : String → String → Action CanonicalEvent
  get_event tenant event_id = alive ctx >> λ m. (Events.get_event tenant event_id m, m)

  abbrev pub list_events : String → EventFilter → Action (List CanonicalEvent)
  list_events tenant filter = alive ctx >> λ m. (ok (Events.list_events tenant filter m), m)

  abbrev pub put_finding : Finding → Action (Unit {0})
  put_finding finding = alive ctx >> λ m. (ok tt, Events.put_finding finding m)

  abbrev pub list_findings : String → String → ℕ → Action (List Finding)
  list_findings tenant event_id limit =
      alive ctx >> λ m. (ok (Events.list_findings tenant event_id limit m), m)

  abbrev pub upsert_alert : Alert → String → ℕ → Action (Alert × Bool)
  upsert_alert candidate dedup_key window =
      alive ctx >> λ m. let (r, m') = Alerts.upsert_alert candidate dedup_key window m in (ok r, m')

  abbrev pub get_alert : String → String → Action Alert
  get_alert tenant alert_id = alive ctx >> λ m. (Alerts.get_alert tenant alert_id m, m)

  abbrev pub list_alerts : String → AlertFilter → Action (List Alert)
  list_alerts tenant filter = alive ctx >> λ m. (ok (Alerts.list_alerts tenant filter m), m)

  abbrev pub mutate_alert : String → String → ℕ → (Alert → Result Alert) → ℕ → Action Alert
  mutate_alert tenant alert_id expected_version mutate now =
      alive ctx >> Alerts.mutate_alert tenant alert_id expected_version mutate now

  abbrev pub create_incident : Incident → Action Incident
  create_incident incident = alive ctx >> Incidents.store_incident incident

  abbrev pub get_incident : String → String → Action Incident
  get_incident tenant incident_id =
      alive ctx >> λ m. (Incidents.get_incident tenant incident_id m, m)

  abbrev pub list_incidents : String → IncidentFilter → Action (List Incident)
  list_incidents tenant filter =
      alive ctx >> λ m. (ok (Incidents.list_incidents tenant filter m), m)

  abbrev pub mutate_incident :
      String → String → ℕ → (Incident → Result Incident) → ℕ → Action Incident
  mutate_incident tenant incident_id expected_version mutate now =
      alive ctx >> Incidents.mutate_incident tenant incident_id expected_version mutate now

  abbrev pub append_audit : Codec → String → ℕ → AuditEntry → Action AuditEntry
  append_audit codec new_id now entry = alive ctx >> λ m.
      let (sealed, m') = Audit.append_audit codec new_id now entry m in (ok sealed, m')

  abbrev pub list_audit : String → ℕ → Action (List AuditEntry)
  list_audit tenant limit = alive ctx >> λ m. (ok (Audit.list_audit tenant limit m), m)

  abbrev pub verify_audit : Codec → String → Action Bool
  verify_audit codec tenant = alive ctx >> λ m. (ok (Audit.verify_audit codec tenant m), m)
