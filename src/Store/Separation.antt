-- ===== src/Store/Separation.antt =====
-- A call for one tenant changes nothing that the methods read for another.
use kazutb_siem.Base.{
  ℕ, String, ◌≡◌, refl, ◌≢◌, inl, inr, true, false, List, ◌==◌, Option-cases, eqb_of_ne,
}
use kazutb_siem.Base.Map.{Map, lookup₂, insert₂}
use kazutb_siem.Core.{CanonicalEvent, Finding, Alert, Incident, AuditEntry, Result}
use kazutb_siem.Tenant.{valid}
use kazutb_siem.Store.State.{slice_at, text_at, ensure_tenant, Memory}
use kazutb_siem.Store.Cases.{mutate_alert_cases, mutate_incident_cases}
use kazutb_siem.Store.Keys.{is_plain, valid-is_plain}
use kazutb_siem.Store.Isolation.{
  SameFor-refl, SameFor-trans, inner_other₂, slice_other, text_other, ensure_tenant-SameFor,
  dedup_other, reset_tenant-SameFor, SameFor,
}
use kazutb_siem.Store.Rules.{set_rules}
use kazutb_siem.Store.Events.{put_event, put_finding}
use kazutb_siem.Store.Alerts.{upsert_alert, mutate_alert, reusable, dedup_entry}
use kazutb_siem.Store.Incidents.{store_incident, mutate_incident}
use kazutb_siem.Store.Audit.{append_audit, Codec}
use kazutb_siem.Store.Reachable.{
  Step, puts_event, puts_finding, upserts_alert, mutates_alert, stores_incident, mutates_incident,
  appends_audit, resets, sets_rules,
}

module _ (u : String) (m : Memory) where
  put_event-SameFor :
      (event : CanonicalEvent) → (event.tenant_id == u) ≡ false → SameFor u m (put_event event m).1
  unfolding put_event
  put_event-SameFor event differs =
      elim (Option-cases (lookup₂ event.tenant_id event.id ready.events)) [
        | inr p ↦ rw (p.1, put_event) registered
        | inl fresh ↦
            rw (fresh, put_event)
              (SameFor-trans m ready _ registered (record {
                events = inner_other₂ _ _ differs _ _ _;
                event_order = slice_other _ _ differs _ _;
                findings = refl;
                finding_order = refl;
                alerts = refl;
                alert_order = refl;
                dedup = λ key. refl;
                incidents = refl;
                incident_order = refl;
                audit = refl;
                audit_head = refl;
              }))
      ]
    where
      ready : Memory
      ready = ensure_tenant event.tenant_id m

      registered : SameFor u m ready
      registered = ensure_tenant-SameFor event.tenant_id u differs m

  put_finding-SameFor :
      (finding : Finding) → (finding.tenant_id == u) ≡ false → SameFor u m (put_finding finding m)
  unfolding put_finding
  put_finding-SameFor finding differs =
      elim (Option-cases (lookup₂ finding.tenant_id finding.id ready.findings)) [
        | inr p ↦ rw (p.1, put_finding) registered
        | inl fresh ↦
            rw (fresh, put_finding)
              (SameFor-trans m ready _ registered (record {
                events = refl;
                event_order = refl;
                findings = inner_other₂ _ _ differs _ _ _;
                finding_order = slice_other _ _ differs _ _;
                alerts = refl;
                alert_order = refl;
                dedup = λ key. refl;
                incidents = refl;
                incident_order = refl;
                audit = refl;
                audit_head = refl;
              }))
      ]
    where
      ready : Memory
      ready = ensure_tenant finding.tenant_id m

      registered : SameFor u m ready
      registered = ensure_tenant-SameFor finding.tenant_id u differs m

  store_incident-SameFor :
      (incident : Incident)
      → (incident.tenant_id == u) ≡ false
      → SameFor u m (store_incident incident m).1
  unfolding store_incident
  store_incident-SameFor incident differs =
      elim (Option-cases (lookup₂ incident.tenant_id incident.id ready.incidents)) [
        | inr p ↦ rw (p.1, store_incident) registered
        | inl fresh ↦
            rw (fresh, store_incident)
              (SameFor-trans m ready _ registered (record {
                events = refl;
                event_order = refl;
                findings = refl;
                finding_order = refl;
                alerts = refl;
                alert_order = refl;
                dedup = λ key. refl;
                incidents = inner_other₂ _ _ differs _ _ _;
                incident_order = slice_other _ _ differs _ _;
                audit = refl;
                audit_head = refl;
              }))
      ]
    where
      ready : Memory
      ready = ensure_tenant incident.tenant_id m

      registered : SameFor u m ready
      registered = ensure_tenant-SameFor incident.tenant_id u differs m

  -- A write of one alert, with the order and the index as they may be.
  alerts_written-SameFor :
      (t k : String) (alert : Alert) (order : Map (List String)) (dedup : Map String)
      → (t == u) ≡ false
      → slice_at u order ≡ slice_at u m.alert_order
      → ((key : String) → text_at (dedup_entry u key) dedup ≡ text_at (dedup_entry u key) m.dedup)
      → SameFor u m
          (record m { alerts = insert₂ t k alert m.alerts; alert_order = order; dedup = dedup })
  alerts_written-SameFor t k alert order dedup differs same_order same_dedup = record {
    events = refl;
    event_order = refl;
    findings = refl;
    finding_order = refl;
    alerts = inner_other₂ _ _ differs _ _ _;
    alert_order = same_order;
    dedup = same_dedup;
    incidents = refl;
    incident_order = refl;
    audit = refl;
    audit_head = refl;
  }

  mutate_alert-SameFor :
      (t id : String) (expected now : ℕ) (f : Alert → Result Alert)
      → (t == u) ≡ false
      → SameFor u m (mutate_alert t id expected f now m).1
  mutate_alert-SameFor t id expected now f differs =
      elim (mutate_alert_cases t id expected now f m) [
        | inl (e, failed) ↦ rw failed (SameFor-refl u m)
        | inr (a, b, there, fits, done, saved) ↦
            rw saved (alerts_written-SameFor t _ _ _ _ differs refl (λ key. refl))
      ]

  mutate_incident-SameFor :
      (t id : String) (expected now : ℕ) (f : Incident → Result Incident)
      → (t == u) ≡ false
      → SameFor u m (mutate_incident t id expected f now m).1
  mutate_incident-SameFor t id expected now f differs =
      elim (mutate_incident_cases t id expected now f m) [
        | inl (e, failed) ↦ rw failed (SameFor-refl u m)
        | inr (a, b, there, fits, done, saved) ↦ rw saved (record {
          events = refl;
          event_order = refl;
          findings = refl;
          finding_order = refl;
          alerts = refl;
          alert_order = refl;
          dedup = λ key. refl;
          incidents = inner_other₂ _ _ differs _ _ _;
          incident_order = refl;
          audit = refl;
          audit_head = refl;
        })
      ]

  append_audit-SameFor :
      (c : Codec) (new_id : String) (now : ℕ) (entry : AuditEntry)
      → (entry.tenant_id == u) ≡ false
      → SameFor u m (append_audit c new_id now entry m).1
  unfolding append_audit
  append_audit-SameFor c new_id now entry differs = record {
    events = refl;
    event_order = refl;
    findings = refl;
    finding_order = refl;
    alerts = refl;
    alert_order = refl;
    dedup = λ key. refl;
    incidents = refl;
    incident_order = refl;
    audit = slice_other _ _ differs _ _;
    audit_head = text_other _ _ differs _ _;
  }

upsert_alert-SameFor :
    (u : String) (m : Memory) (candidate : Alert) (key : String) (window : ℕ)
    → candidate.tenant_id ≢ u
    → is_plain candidate.tenant_id ≡ true
    → is_plain u ≡ true
    → SameFor u m (upsert_alert candidate key window m).1
unfolding upsert_alert
upsert_alert-SameFor u m candidate key window other plain_t plain_u =
    elim (Option-cases (reusable candidate key window ready)) [
      | inl new ↦
          rw (new, upsert_alert)
            (SameFor-trans m ready _ registered (
              alerts_written-SameFor u ready _ _ _ _ _ differs (slice_other _ _ differs _ _)
                (λ k. dedup_other _ u other plain_t plain_u key k _ _)))
      | inr p ↦
          rw (p.1, upsert_alert)
            (SameFor-trans m ready _ registered
              (alerts_written-SameFor u ready _ _ _ _ _ differs refl (λ k. refl)))
    ]
  where
    ready : Memory
    ready = ensure_tenant candidate.tenant_id m

    differs : (candidate.tenant_id == u) ≡ false
    differs = eqb_of_ne candidate.tenant_id u other

    registered : SameFor u m ready
    registered = ensure_tenant-SameFor candidate.tenant_id u differs m

separated :
    {c : Codec} {t : String} {m n : Memory}
    → Step c t m n
    → (u : String) → t ≢ u
    → is_plain t ≡ true
    → is_plain u ≡ true
    → SameFor u m n
unfolding set_rules
separated (puts_event e m) u d p q = put_event-SameFor u m e (eqb_of_ne _ _ d)
separated (puts_finding f m) u d p q = put_finding-SameFor u m f (eqb_of_ne _ _ d)
separated (upserts_alert a key window m) u d p q = upsert_alert-SameFor u m a key window d p q
separated (mutates_alert t id expected now f m) u d p q =
    mutate_alert-SameFor u m t id expected now f (eqb_of_ne _ _ d)
separated (stores_incident i m) u d p q = store_incident-SameFor u m i (eqb_of_ne _ _ d)
separated (mutates_incident t id expected now f m) u d p q =
    mutate_incident-SameFor u m t id expected now f (eqb_of_ne _ _ d)
separated (appends_audit new_id now e m) u d p q =
    append_audit-SameFor u m _ new_id now e (eqb_of_ne _ _ d)
separated (resets t m) u d p q = reset_tenant-SameFor t u d p q m
separated (sets_rules t rules m) u d p q = record {
  events = refl;
  event_order = refl;
  findings = refl;
  finding_order = refl;
  alerts = refl;
  alert_order = refl;
  dedup = λ key. refl;
  incidents = refl;
  incident_order = refl;
  audit = refl;
  audit_head = refl;
}

-- A method that is called for one valid tenant changes nothing that is stored for another.
pub Step-SameFor :
    {c : Codec} {t : String} {m n : Memory} (u : String)
    → Step c t m n
    → t ≢ u
    → valid t ≡ true
    → valid u ≡ true
    → SameFor u m n
Step-SameFor {c} {t} u s d p q = separated s u d (valid-is_plain t p) (valid-is_plain u q)
