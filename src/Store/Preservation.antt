-- ===== src/Store/Preservation.antt =====
-- Each method of the embedded store keeps its invariant.
use kazutb_siem.Base.{
  ◌∙◌, List, ℕ, String, ◌≡◌, inl, inr, true, none, some, [], arith, eq_iff, Option-cases,
}
use kazutb_siem.Base.Map.{
  inner-insert, lookup-insert, insert, Map, lookup, inner, lookup₂, insert₂, inner-insert₂,
  lookup-insert₂,
}
use kazutb_siem.Core.{
  DetectionRule, Incident, AuditEntry, CanonicalEvent, Finding, Alert, Result, ok,
}
use kazutb_siem.Store.State.{reset_tenant, ensure_tenant, Memory}
use kazutb_siem.Store.Laws.{ensure_tenant_registers, is_some}
use kazutb_siem.Store.Indexed.{IsIndexed-replace, IsIndexed, IsIndexed-reset, IsIndexed-add}
use kazutb_siem.Store.Cases.{reusable_lem, mutate_alert_cases, mutate_incident_cases}
use kazutb_siem.Store.Rules.{set_rules}
use kazutb_siem.Store.Audit.{Codec, append_audit}
use kazutb_siem.Store.Alerts.{reusable, upsert_alert, mutate_alert}
use kazutb_siem.Store.Incidents.{store_incident, mutate_incident}
use kazutb_siem.Store.WellFormed.{lookup₂-ensure_alerts, ensure_tenant-IsWellFormed, IsWellFormed}
use kazutb_siem.Store.Events.{put_event, put_finding}

module _ {V : Type 0} (t : String) (events : Map (Map CanonicalEvent)) (objects : Map (Map V)) where
  -- So does a write for a tenant that is registered.
  registered_write :
      (k : String) (v : V)
      → is_some (lookup t events) ≡ true
      → ((u : String) → lookup u events ≡ none → inner u objects ≡ [])
      → (u : String) → lookup u events ≡ none
      → inner u (insert₂ t k v objects) ≡ []
  registered_write k v r h u e =
      ground (arith, e, r, inner-insert₂ t u k v objects, eq_iff t u, h u)

  -- And a write among the events themselves.
  registered_event :
      (k : String) (event : CanonicalEvent)
      → ((u : String) → lookup u events ≡ none → inner u objects ≡ [])
      → (u : String) → lookup u (insert₂ t k event events) ≡ none
      → inner u objects ≡ []
  registered_event k event h u e = ground (arith, e, lookup-insert₂ t u k event events, h u)

pub put_event-IsWellFormed :
    (event : CanonicalEvent) (m : Memory) → IsWellFormed m → IsWellFormed (put_event event m).1
unfolding put_event
put_event-IsWellFormed event m h =
    elim (Option-cases (lookup₂ event.tenant_id event.id ready.events)) [
      | inr p ↦ rw (p.1, put_event) w
      | inl fresh ↦
          rw (fresh, put_event)
            (record {
              findings_registered = registered_event _ _ _ _ _ w.findings_registered;
              alerts_registered = registered_event _ _ _ _ _ w.alerts_registered;
              incidents_registered = registered_event _ _ _ _ _ w.incidents_registered;
              events = IsIndexed-add _ _ event w.events fresh;
              findings = w.findings;
              alerts = w.alerts;
              incidents = w.incidents;
            })
    ]
  where
    ready : Memory
    ready = ensure_tenant event.tenant_id m

    w : IsWellFormed ready
    w = ensure_tenant-IsWellFormed event.tenant_id m h

pub put_finding-IsWellFormed :
    (finding : Finding) (m : Memory) → IsWellFormed m → IsWellFormed (put_finding finding m)
unfolding put_finding
put_finding-IsWellFormed finding m h =
    elim (Option-cases (lookup₂ finding.tenant_id finding.id ready.findings)) [
      | inr p ↦ rw (p.1, put_finding) w
      | inl fresh ↦
          rw (fresh, put_finding)
            (record {
              findings_registered =
                  registered_write _ _ _ _ _ (ensure_tenant_registers _ m) w.findings_registered;
              alerts_registered = w.alerts_registered;
              incidents_registered = w.incidents_registered;
              events = w.events;
              findings = IsIndexed-add _ _ finding w.findings fresh;
              alerts = w.alerts;
              incidents = w.incidents;
            })
    ]
  where
    ready : Memory
    ready = ensure_tenant finding.tenant_id m

    w : IsWellFormed ready
    w = ensure_tenant-IsWellFormed finding.tenant_id m h

module _ {V : Type 0} (t k : String) (events : Map (Map CanonicalEvent))
    (objects : Map (Map V)) where
  -- A tenant that has an object is registered.
  found_registered :
      (v : V)
      → ((u : String) → lookup u events ≡ none → inner u objects ≡ [])
      → lookup₂ t k objects ≡ some v
      → is_some (lookup t events) ≡ true
  unfolding lookup₂ lookup
  found_registered v h e = elim (Option-cases (lookup t events)) [
    | inl missing ↦ ground (arith, h t missing, e)
    | inr p ↦ rw p.1
  ]

module _ (m : Memory) (w : IsWellFormed m) where
  alerts_written :
      (t k : String) (alert : Alert)
      → (order : Map (List String)) → is_some (lookup t m.events) ≡ true
      → IsIndexed (λ (a : Alert). a.tenant_id) (λ a. a.id) (insert₂ t k alert m.alerts) order
      → (dedup : Map String)
      → IsWellFormed
          (record m { alerts = insert₂ t k alert m.alerts; alert_order = order; dedup = dedup })
  alerts_written t k alert order r indexed dedup = record {
    findings_registered = w.findings_registered;
    alerts_registered = registered_write t m.events m.alerts k alert r w.alerts_registered;
    incidents_registered = w.incidents_registered;
    events = w.events;
    findings = w.findings;
    alerts = indexed;
    incidents = w.incidents;
  }

  incidents_written :
      (t k : String) (incident : Incident)
      → (order : Map (List String)) → is_some (lookup t m.events) ≡ true
      → IsIndexed
          (λ (i : Incident). i.tenant_id)
          (λ i. i.id)
          (insert₂ t k incident m.incidents)
          order
      → IsWellFormed
          (record m { incidents = insert₂ t k incident m.incidents; incident_order = order })
  incidents_written t k incident order r indexed = record {
    findings_registered = w.findings_registered;
    alerts_registered = w.alerts_registered;
    incidents_registered =
        registered_write t m.events m.incidents k incident r w.incidents_registered;
    events = w.events;
    findings = w.findings;
    alerts = w.alerts;
    incidents = indexed;
  }

module _ (candidate : Alert) (dedup_key : String) (window : ℕ) (m : Memory) where
  pub upsert_alert-IsWellFormed :
      lookup₂ candidate.tenant_id candidate.id m.alerts ≡ none
      → IsWellFormed m
      → IsWellFormed (upsert_alert candidate dedup_key window m).1
  unfolding upsert_alert
  upsert_alert-IsWellFormed fresh h =
      elim (Option-cases (reusable candidate dedup_key window ready)) [
        | inl new ↦
            rw (new, upsert_alert)
              (alerts_written ready w _ _ _ _ registered
                (IsIndexed-add _ _ candidate w.alerts (lookup₂-ensure_alerts _ _ _ m h ∙ fresh)) _)
        | inr p ↦
            let there = (reusable_lem candidate dedup_key window ready p.0 p.1).0 in
            let own = w.alerts.keyed _ _ _ there in
            rw (p.1, upsert_alert)
              (alerts_written ready w _ _ _ _ registered
                (IsIndexed-replace _ _ _ _ _ _ w.alerts there own.0 own.1) _)
      ]
    where
      ready : Memory
      ready = ensure_tenant candidate.tenant_id m

      w : IsWellFormed ready
      w = ensure_tenant-IsWellFormed candidate.tenant_id m h

      registered : is_some (lookup candidate.tenant_id ready.events) ≡ true
      registered = ensure_tenant_registers candidate.tenant_id m

pub store_incident-IsWellFormed :
    (incident : Incident) (m : Memory) → IsWellFormed m → IsWellFormed (store_incident incident m).1
unfolding store_incident
store_incident-IsWellFormed incident m h =
    elim (Option-cases (lookup₂ incident.tenant_id incident.id ready.incidents)) [
      | inr p ↦ rw (p.1, store_incident) w
      | inl fresh ↦
          rw (fresh, store_incident)
            (incidents_written ready w _ _ _ _ (ensure_tenant_registers _ m)
              (IsIndexed-add _ _ incident w.incidents fresh))
    ]
  where
    ready : Memory
    ready = ensure_tenant incident.tenant_id m

    w : IsWellFormed ready
    w = ensure_tenant-IsWellFormed incident.tenant_id m h

module _ (tenant alert_id : String) (expected now : ℕ) (mutate : Alert → Result Alert)
    (m : Memory) where
  pub mutate_alert-IsWellFormed :
      ((a b : Alert) → mutate a ≡ ok b → (b.tenant_id ≡ a.tenant_id) × (b.id ≡ a.id))
      → IsWellFormed m
      → IsWellFormed (mutate_alert tenant alert_id expected mutate now m).1
  mutate_alert-IsWellFormed keeps w =
      elim (mutate_alert_cases tenant alert_id expected now mutate m) [
        | inl (e, failed) ↦ rw failed w
        | inr (a, b, there, fits, done, saved) ↦
            let own = w.alerts.keyed _ _ _ there in
            let kept = keeps a b done in
            rw saved (
              alerts_written m w _ _ _ _
                (found_registered tenant alert_id m.events m.alerts a w.alerts_registered there)
                (IsIndexed-replace _ _ _ _ _ _ w.alerts there (kept.0 ∙ own.0) (kept.1 ∙ own.1)) _)
      ]

module _ (tenant incident_id : String) (expected now : ℕ) (mutate : Incident → Result Incident)
    (m : Memory) where
  pub mutate_incident-IsWellFormed :
      ((a b : Incident) → mutate a ≡ ok b → (b.tenant_id ≡ a.tenant_id) × (b.id ≡ a.id))
      → IsWellFormed m
      → IsWellFormed (mutate_incident tenant incident_id expected mutate now m).1
  mutate_incident-IsWellFormed keeps w =
      elim (mutate_incident_cases tenant incident_id expected now mutate m) [
        | inl (e, failed) ↦ rw failed w
        | inr (a, b, there, fits, done, saved) ↦
            let own = w.incidents.keyed _ _ _ there in
            let kept = keeps a b done in
            rw saved (
              incidents_written m w _ _ _ _
                (found_registered tenant incident_id m.events m.incidents a w.incidents_registered
                  there)
                (IsIndexed-replace _ _ _ _ _ _ w.incidents there (kept.0 ∙ own.0) (kept.1 ∙ own.1)))
      ]

module _ {V : Type 0} (t : String) (events : Map (Map CanonicalEvent)) (objects : Map (Map V)) where
  registered_reset :
      ((u : String) → lookup u events ≡ none → inner u objects ≡ [])
      → (u : String) → lookup u (insert t [] events) ≡ none
      → inner u (insert t [] objects) ≡ []
  registered_reset h u e =
      ground (arith, e, lookup-insert t u [] events, inner-insert t u [] objects, h u)

pub reset_tenant-IsWellFormed :
    (t : String) (m : Memory) → IsWellFormed m → IsWellFormed (reset_tenant t m)
unfolding reset_tenant
reset_tenant-IsWellFormed t m w = record {
  findings_registered = registered_reset t m.events m.findings w.findings_registered;
  alerts_registered = registered_reset t m.events m.alerts w.alerts_registered;
  incidents_registered = registered_reset t m.events m.incidents w.incidents_registered;
  events = IsIndexed-reset _ _ t w.events;
  findings = IsIndexed-reset _ _ t w.findings;
  alerts = IsIndexed-reset _ _ t w.alerts;
  incidents = IsIndexed-reset _ _ t w.incidents;
}

module _ (m : Memory) (w : IsWellFormed m) where
  pub append_audit-IsWellFormed :
      (c : Codec) (new_id : String) (now : ℕ) (entry : AuditEntry)
      → IsWellFormed (append_audit c new_id now entry m).1
  unfolding append_audit
  append_audit-IsWellFormed c new_id now entry = record {
    findings_registered = w.findings_registered;
    alerts_registered = w.alerts_registered;
    incidents_registered = w.incidents_registered;
    events = w.events;
    findings = w.findings;
    alerts = w.alerts;
    incidents = w.incidents;
  }

  pub set_rules-IsWellFormed : (rules : List DetectionRule) → IsWellFormed (set_rules rules m)
  unfolding set_rules
  set_rules-IsWellFormed rules = record {
    findings_registered = w.findings_registered;
    alerts_registered = w.alerts_registered;
    incidents_registered = w.incidents_registered;
    events = w.events;
    findings = w.findings;
    alerts = w.alerts;
    incidents = w.incidents;
  }
