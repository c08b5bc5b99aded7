-- ===== src/Store/WellFormed.antt =====
-- The invariant of the embedded store, and that registering a tenant keeps it.
use kazutb_siem.Base.{String, ◌≡◌, refl, inl, inr, none, [], arith, Option-cases}
use kazutb_siem.Base.Map.{
  Map, lookup, insert, lookup-insert, inner, lookup₂, inner-insert, inner_of_missing,
}
use kazutb_siem.Core.{CanonicalEvent, Finding, Alert, Incident}
use kazutb_siem.Store.State.{new_memory, slice_at, ensure_tenant, Memory}
use kazutb_siem.Store.Laws.{lookup₂-insert_same, has-nil}
use kazutb_siem.Store.Indexed.{IsIndexed-register, IsIndexed}

-- A tenant that has no events map has no other objects, and each of the four maps agrees with the
-- order of its identifiers.
pub record IsWellFormed (m : Memory) : Type 0 where
  pub findings_registered : (t : String) → lookup t m.events ≡ none → inner t m.findings ≡ []
  pub alerts_registered : (t : String) → lookup t m.events ≡ none → inner t m.alerts ≡ []
  pub incidents_registered : (t : String) → lookup t m.events ≡ none → inner t m.incidents ≡ []
  pub events : IsIndexed (λ (e : CanonicalEvent). e.tenant_id) (λ e. e.id) m.events m.event_order
  pub findings : IsIndexed (λ (f : Finding). f.tenant_id) (λ f. f.id) m.findings m.finding_order
  pub alerts : IsIndexed (λ (a : Alert). a.tenant_id) (λ a. a.id) m.alerts m.alert_order
  pub incidents : IsIndexed (λ (i : Incident). i.tenant_id) (λ i. i.id) m.incidents m.incident_order

module _ {V : Type 0} (tenant_of id_of : V → String) where
  empty-IsIndexed : IsIndexed tenant_of id_of [] []
  unfolding lookup₂ inner lookup slice_at
  empty-IsIndexed = record { keyed = λ t k v e. cc; listed = λ t k. has-nil k; distinct = λ t. tt }

pub new_memory-IsWellFormed : IsWellFormed new_memory
unfolding inner lookup
new_memory-IsWellFormed = record {
  findings_registered = λ t e. refl;
  alerts_registered = λ t e. refl;
  incidents_registered = λ t e. refl;
  events = empty-IsIndexed _ _;
  findings = empty-IsIndexed _ _;
  alerts = empty-IsIndexed _ _;
  incidents = empty-IsIndexed _ _;
}

module _ {V : Type 0} (t : String) (events : Map (Map CanonicalEvent)) (objects : Map (Map V)) where
  -- Registering keeps what is said of the tenants that are not registered.
  registered_after :
      ((u : String) → lookup u events ≡ none → inner u objects ≡ [])
      → (u : String) → lookup u (insert t [] events) ≡ none
      → inner u (insert t [] objects) ≡ []
  registered_after h u e =
      ground (arith, e, lookup-insert t u [] events, inner-insert t u [] objects, h u)

module _ (t : String) (m : Memory) (w : IsWellFormed m) where
  register : lookup t m.events ≡ none → IsWellFormed (ensure_tenant t m)
  unfolding ensure_tenant
  register e =
      rw (e, ensure_tenant)
        (record {
          findings_registered = registered_after t m.events m.findings w.findings_registered;
          alerts_registered = registered_after t m.events m.alerts w.alerts_registered;
          incidents_registered = registered_after t m.events m.incidents w.incidents_registered;
          events = IsIndexed-register _ _ t w.events (inner_of_missing t m.events e);
          findings = IsIndexed-register _ _ t w.findings (w.findings_registered t e);
          alerts = IsIndexed-register _ _ t w.alerts (w.alerts_registered t e);
          incidents = IsIndexed-register _ _ t w.incidents (w.incidents_registered t e);
        })

  pub ensure_tenant-IsWellFormed : IsWellFormed (ensure_tenant t m)
  unfolding ensure_tenant
  ensure_tenant-IsWellFormed = elim (Option-cases (lookup t m.events)) [
    | inl e ↦ register e
    | inr p ↦ rw (p.1, ensure_tenant) w
  ]

module _ (t u k : String) (m : Memory) (w : IsWellFormed m) where
  pub lookup₂-ensure_findings : lookup₂ u k (ensure_tenant t m).findings ≡ lookup₂ u k m.findings
  unfolding ensure_tenant
  lookup₂-ensure_findings = elim (Option-cases (lookup t m.events)) [
    | inl e ↦
        rw (e, ensure_tenant) (lookup₂-insert_same t u k m.findings (w.findings_registered t e))
    | inr p ↦ rw (p.1, ensure_tenant)
  ]

  pub lookup₂-ensure_alerts : lookup₂ u k (ensure_tenant t m).alerts ≡ lookup₂ u k m.alerts
  unfolding ensure_tenant
  lookup₂-ensure_alerts = elim (Option-cases (lookup t m.events)) [
    | inl e ↦ rw (e, ensure_tenant) (lookup₂-insert_same t u k m.alerts (w.alerts_registered t e))
    | inr p ↦ rw (p.1, ensure_tenant)
  ]

  pub lookup₂-ensure_incidents : lookup₂ u k (ensure_tenant t m).incidents ≡ lookup₂ u k m.incidents
  unfolding ensure_tenant
  lookup₂-ensure_incidents = elim (Option-cases (lookup t m.events)) [
    | inl e ↦
        rw (e, ensure_tenant) (lookup₂-insert_same t u k m.incidents (w.incidents_registered t e))
    | inr p ↦ rw (p.1, ensure_tenant)
  ]
