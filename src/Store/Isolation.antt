-- ===== src/Store/Isolation.antt =====
-- What the methods read for one tenant, and that a write for another tenant leaves it.
use kazutb_siem.Base.{
  ◌≢◌, true, arith, Bool-cases, eqb_of_ne, String, ◌≡◌, refl, ◌∙◌, inl, inr, false, List, ◌==◌,
  Option-cases,
}
use kazutb_siem.Base.Map.{
  delete_if, lookup-delete_if, Map, lookup, insert, inner, insert₂, inner-insert, inner-insert₂,
}
use kazutb_siem.Store.State.{reset_tenant, slice_at, text_at, ensure_tenant, Memory}
use kazutb_siem.Store.Laws.{slice_at-insert, text_at-insert}
use kazutb_siem.Store.Alerts.{dedup_entry}
use kazutb_siem.Base.Text.{◌<>◌, has_prefix}
use kazutb_siem.Store.Keys.{is_plain, split_at_bar, prefix_at_bar}

-- The tenant reads the same objects, orders, index entries and audit log in both states.
pub record SameFor (u : String) (m n : Memory) : Type 0 where
  pub events : inner u n.events ≡ inner u m.events
  pub event_order : slice_at u n.event_order ≡ slice_at u m.event_order
  pub findings : inner u n.findings ≡ inner u m.findings
  pub finding_order : slice_at u n.finding_order ≡ slice_at u m.finding_order
  pub alerts : inner u n.alerts ≡ inner u m.alerts
  pub alert_order : slice_at u n.alert_order ≡ slice_at u m.alert_order
  pub dedup :
      (key : String) → text_at (dedup_entry u key) n.dedup ≡ text_at (dedup_entry u key) m.dedup
  pub incidents : inner u n.incidents ≡ inner u m.incidents
  pub incident_order : slice_at u n.incident_order ≡ slice_at u m.incident_order
  pub audit : slice_at u n.audit ≡ slice_at u m.audit
  pub audit_head : text_at u n.audit_heads ≡ text_at u m.audit_heads

pub SameFor-refl : (u : String) (m : Memory) → SameFor u m m
SameFor-refl u m = record {
  events = refl;
  event_order = refl;
  findings = refl;
  finding_order = refl;
  alerts = refl;
  alert_order = refl;
  dedup = λ key. refl;
  incidents = refl;
  incident_order = refl;
  audit = refl;
  audit_head = refl;
}

pub SameFor-trans : {u : String} (m n p : Memory) → SameFor u m n → SameFor u n p → SameFor u m p
SameFor-trans m n p s r = record {
  events = r.events ∙ s.events;
  event_order = r.event_order ∙ s.event_order;
  findings = r.findings ∙ s.findings;
  finding_order = r.finding_order ∙ s.finding_order;
  alerts = r.alerts ∙ s.alerts;
  alert_order = r.alert_order ∙ s.alert_order;
  dedup = λ key. r.dedup key ∙ s.dedup key;
  incidents = r.incidents ∙ s.incidents;
  incident_order = r.incident_order ∙ s.incident_order;
  audit = r.audit ∙ s.audit;
  audit_head = r.audit_head ∙ s.audit_head;
}

module _ (t u : String) (other : (t == u) ≡ false) where
  pub inner_other {ℓ} :
      {V : Type ℓ} (n : Map V) (m : Map (Map V)) → inner u (insert t n m) ≡ inner u m
  inner_other n m = rw (inner-insert t u n m, other)

  pub inner_other₂ {ℓ} :
      {V : Type ℓ} (k : String) (v : V) (m : Map (Map V)) → inner u (insert₂ t k v m) ≡ inner u m
  inner_other₂ k v m = rw (inner-insert₂ t u k v m, other)

  pub slice_other {ℓ} :
      {A : Type ℓ} (xs : List A) (m : Map (List A)) → slice_at u (insert t xs m) ≡ slice_at u m
  slice_other xs m = rw (slice_at-insert t u xs m, other)

  pub text_other : (s : String) (m : Map String) → text_at u (insert t s m) ≡ text_at u m
  text_other s m = rw (text_at-insert t u s m, other)

  pub ensure_tenant-SameFor : (m : Memory) → SameFor u m (ensure_tenant t m)
  unfolding ensure_tenant
  ensure_tenant-SameFor m = elim (Option-cases (lookup t m.events)) [
    | inr p ↦ rw (p.1, ensure_tenant) (SameFor-refl u m)
    | inl e ↦
        rw (e, ensure_tenant)
          (record {
            events = inner_other _ _;
            event_order = refl;
            findings = inner_other _ _;
            finding_order = refl;
            alerts = inner_other _ _;
            alert_order = refl;
            dedup = λ key. refl;
            incidents = inner_other _ _;
            incident_order = refl;
            audit = refl;
            audit_head = refl;
          })
  ]

module _ (t u : String) (other : t ≢ u) (plain_t : is_plain t ≡ true)
    (plain_u : is_plain u ≡ true) where
  other_key : (j k : String) → (dedup_entry t j == dedup_entry u k) ≡ false
  other_key j k = eqb_of_ne _ _ (λ e. other (split_at_bar t u j k plain_t plain_u e).0)

  pub dedup_other :
      (j k s : String) (m : Map String)
      → text_at (dedup_entry u k) (insert (dedup_entry t j) s m) ≡ text_at (dedup_entry u k) m
  dedup_other j k s m = rw (text_at-insert (dedup_entry t j) (dedup_entry u k) s m, other_key j k)

  not_own_prefix : (k : String) → has_prefix (dedup_entry u k) (t <> "|") ≡ false
  not_own_prefix k = elim (Bool-cases (has_prefix (dedup_entry u k) (t <> "|"))) [
    | inl e ↦ absurd (other (prefix_at_bar u t k plain_u plain_t e))
    | inr e ↦ e
  ]

  dedup_reset :
      (k : String) (m : Map String)
      → text_at (dedup_entry u k) (delete_if (λ key. has_prefix key (t <> "|")) m)
        ≡ text_at (dedup_entry u k) m
  unfolding text_at
  dedup_reset k m = ground (
    arith,
    lookup-delete_if (λ key. has_prefix key (t <> "|")) (dedup_entry u k) m,
    not_own_prefix k,
  )

module _ (t u : String) (other : t ≢ u) (plain_t : is_plain t ≡ true) (plain_u : is_plain u ≡ true)
    (m : Memory) where
  differs : (t == u) ≡ false
  differs = eqb_of_ne t u other

  pub reset_tenant-SameFor : SameFor u m (reset_tenant t m)
  unfolding reset_tenant
  reset_tenant-SameFor = record {
    events = inner_other t u differs _ _;
    event_order = slice_other t u differs _ _;
    findings = inner_other t u differs _ _;
    finding_order = slice_other t u differs _ _;
    alerts = inner_other t u differs _ _;
    alert_order = slice_other t u differs _ _;
    dedup = λ key. dedup_reset t u other plain_t plain_u key m.dedup;
    incidents = inner_other t u differs _ _;
    incident_order = slice_other t u differs _ _;
    audit = slice_other t u differs _ _;
    audit_head = text_other t u differs _ _;
  }
