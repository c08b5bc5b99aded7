-- ===== src/Store/FirstEvent.antt =====
-- PutEvent and GetEvent: the first event under an identifier stays.
use kazutb_siem.Base.{
  ap, ◌∙◌, some, eq_iff, eq_refl, String, ◌≡◌, inl, inr, true, ◌&&◌, arith, ◌==◌, if◌then◌else◌,
  Option-cases,
}
use kazutb_siem.Base.Map.{lookup₂, lookup-insert₂, lookup₂-insert₂, lookup}
use kazutb_siem.Core.{CanonicalEvent, ok}
use kazutb_siem.Store.State.{ensure_tenant, Memory}
use kazutb_siem.Store.Laws.{lookup₂-ensure_tenant, ensure_tenant_registers, is_some}
use kazutb_siem.Store.Events.{put_event, get_event}

ensure_tenant_again :
    (t : String) (m : Memory) → is_some (lookup t m.events) ≡ true → ensure_tenant t m ≡ m
unfolding ensure_tenant
ensure_tenant_again t m h = elim (Option-cases (lookup t m.events)) [
  | inl e ↦ absurd (ground (arith, h, e))
  | inr p ↦ rw (p.1, ensure_tenant)
]

module _ (e : CanonicalEvent) (m : Memory) where
  put_event_registers : is_some (lookup e.tenant_id (put_event e m).1.events) ≡ true
  unfolding put_event
  put_event_registers =
      elim (Option-cases (lookup₂ e.tenant_id e.id (ensure_tenant e.tenant_id m).events)) [
        | inr p ↦ rw (p.1, put_event) (ensure_tenant_registers e.tenant_id m)
        | inl fresh ↦
            rw (fresh, put_event)
              (ground (
                arith,
                eq_refl e.tenant_id,
                lookup-insert₂ e.tenant_id e.tenant_id e.id e (ensure_tenant e.tenant_id m).events,
              ))
      ]

  -- What stands under the event's identifier after the call, and under any other.
  lookup₂-put_event :
      (t id : String)
      → lookup₂ t id (put_event e m).1.events ≡ (
          if e.tenant_id == t && e.id == id
          then some (put_event e m).0.0
          else lookup₂ t id m.events)
  unfolding put_event
  lookup₂-put_event t id =
      elim (Option-cases (lookup₂ e.tenant_id e.id (ensure_tenant e.tenant_id m).events)) [
        | inr p ↦
            rw (p.1, put_event)
              (ground (
                arith,
                p.1,
                eq_iff e.tenant_id t,
                eq_iff e.id id,
                lookup₂-ensure_tenant e.tenant_id t id m,
              ))
        | inl fresh ↦
            rw (fresh, put_event)
              (ground (
                arith,
                eq_iff e.tenant_id t,
                eq_iff e.id id,
                lookup₂-ensure_tenant e.tenant_id t id m,
                lookup₂-insert₂ e.tenant_id t e.id id e (ensure_tenant e.tenant_id m).events,
              ))
      ]

  pub put_event_found :
      (v : CanonicalEvent)
      → is_some (lookup e.tenant_id m.events) ≡ true
      → lookup₂ e.tenant_id e.id m.events ≡ some v
      → put_event e m ≡ ((v, true), m)
  unfolding put_event
  put_event_found v r h =
      let same = ensure_tenant_again e.tenant_id m r in
      let there = ap (λ (n : Memory). lookup₂ e.tenant_id e.id n.events) same ∙ h in
      rw (there, put_event) (ap (λ (n : Memory). ((v, true), n)) same)

-- Another event with the tenant and the identifier of one that was put finds the first, is told
-- that it is a duplicate, and changes nothing.
pub put_event-put_event :
    (first second : CanonicalEvent) (m : Memory)
    → second.tenant_id ≡ first.tenant_id
    → second.id ≡ first.id
    → put_event second (put_event first m).1
      ≡ (((put_event first m).0.0, true), (put_event first m).1)
put_event-put_event first second m et ei =
    put_event_found second (put_event first m).1 (put_event first m).0.0
      (rw et (put_event_registers first m))
      (rw (et, ei, lookup₂-put_event first m, eq_refl first.tenant_id, eq_refl first.id))

-- GetEvent, after PutEvent, returns under the event's tenant and identifier what PutEvent returned,
-- and elsewhere what it returned before.
pub get_event-put_event :
    (e : CanonicalEvent) (m : Memory) (t id : String)
    → get_event t id (put_event e m).1
      ≡ (if e.tenant_id == t && e.id == id then ok (put_event e m).0.0 else get_event t id m)
unfolding get_event
get_event-put_event e m t id = rw (lookup₂-put_event e m t id, get_event) (ground arith)
