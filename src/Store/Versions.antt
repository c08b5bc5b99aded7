-- ===== src/Store/Versions.antt =====
-- Optimistic concurrency of MutateAlert and MutateIncident.
use kazutb_siem.Base.{false, some, eqb, ℕ, ◌+◌, String, ◌≡◌, inl, inr, true, arith, eq_iff, ltb}
use kazutb_siem.Base.Map.{lookup₂, lookup₂-insert₂}
use kazutb_siem.Core.{Alert, Incident, Result, version_conflict, ok, err}
use kazutb_siem.Store.State.{Memory}
use kazutb_siem.Store.Cases.{mutate_alert_cases, mutate_incident_cases}
use kazutb_siem.Store.Alerts.{mutate_alert}
use kazutb_siem.Store.Incidents.{mutate_incident}

mutate_alert_refused :
    (tenant alert_id : String) (expected now : ℕ) (mutate : Alert → Result Alert) (m : Memory)
    (a : Alert)
    → lookup₂ tenant alert_id m.alerts ≡ some a
    → ltb 0 expected ≡ true
    → eqb a.version expected ≡ false
    → mutate_alert tenant alert_id expected mutate now m ≡ (err version_conflict, m)
unfolding mutate_alert
mutate_alert_refused tenant alert_id expected now mutate m a there named differs =
    ground (arith, there, named, differs)

-- Of two callers who read the same version, one loses: once a MutateAlert that expects a version
-- above 0 succeeds, with a function that keeps the version, every other call with that version is
-- refused with a version conflict, and leaves the store as it is.
pub mutate_alert-conflict :
    (tenant alert_id : String) (expected now later : ℕ) (mutate other : Alert → Result Alert)
    (m m' : Memory) (saved : Alert)
    → ltb 0 expected ≡ true
    → ((a b : Alert) → mutate a ≡ ok b → b.version ≡ a.version)
    → mutate_alert tenant alert_id expected mutate now m ≡ (ok saved, m')
    → mutate_alert tenant alert_id expected other later m' ≡ (err version_conflict, m')
mutate_alert-conflict tenant alert_id expected now later mutate other m m' saved named keeps e =
    elim (mutate_alert_cases tenant alert_id expected now mutate m) [
      | inl (_, failed) ↦ absurd (ground (arith, failed, e))
      | inr (a, b, _, fits, made, done) ↦
          let after = record b { version = b.version + 1; updated_at = now } in
          let found = lookup₂-insert₂ tenant tenant alert_id alert_id after m.alerts in
          mutate_alert_refused tenant alert_id expected later other m' after
            (ground (arith, done, e, found, eq_iff tenant tenant, eq_iff alert_id alert_id)) named
            (ground (arith, fits, keeps a b made, named))
    ]

mutate_incident_refused :
    (tenant incident_id : String) (expected now : ℕ) (mutate : Incident → Result Incident)
    (m : Memory) (a : Incident)
    → lookup₂ tenant incident_id m.incidents ≡ some a
    → ltb 0 expected ≡ true
    → eqb a.version expected ≡ false
    → mutate_incident tenant incident_id expected mutate now m ≡ (err version_conflict, m)
unfolding mutate_incident
mutate_incident_refused tenant incident_id expected now mutate m a there named differs =
    ground (arith, there, named, differs)

-- The same for MutateIncident.
pub mutate_incident-conflict :
    (tenant incident_id : String) (expected now later : ℕ)
    (mutate other : Incident → Result Incident) (m m' : Memory) (saved : Incident)
    → ltb 0 expected ≡ true
    → ((a b : Incident) → mutate a ≡ ok b → b.version ≡ a.version)
    → mutate_incident tenant incident_id expected mutate now m ≡ (ok saved, m')
    → mutate_incident tenant incident_id expected other later m' ≡ (err version_conflict, m')
mutate_incident-conflict tenant incident_id expected now later mutate other m m' saved named keeps
      e =
    elim (mutate_incident_cases tenant incident_id expected now mutate m) [
      | inl (_, failed) ↦ absurd (ground (arith, failed, e))
      | inr (a, b, _, fits, made, done) ↦
          let after = record b { version = b.version + 1; updated_at = now } in
          let found = lookup₂-insert₂ tenant tenant incident_id incident_id after m.incidents in
          mutate_incident_refused tenant incident_id expected later other m' after
            (ground (arith, done, e, found, eq_iff tenant tenant, eq_iff incident_id incident_id))
            named (ground (arith, fits, keeps a b made, named))
    ]
