-- ===== src/Pipeline/Duplicates.antt =====
-- An event that comes a second time.
use kazutb_siem.Base.{ℕ, String, ◌≡◌, refl, ap, ◌∙◌, Bool, true, Option, none, some, [], arith}
use kazutb_siem.Base.Map.{lookup, lookup₂}
use kazutb_siem.Core.{CanonicalEvent, Error, ok}
use kazutb_siem.Store.State.{Memory}
use kazutb_siem.Store.Laws.{is_some}
use kazutb_siem.Store.Action.{Env}
use kazutb_siem.Store.Repository
use kazutb_siem.Store.FirstEvent.{put_event_found}
use kazutb_siem.Correlation.Observe.{MemoryCorrelationStore}
use kazutb_siem.Pipeline.Normalize.{normalize, Encoder}
use kazutb_siem.Pipeline.Ingest.{receive, ingest}

-- PutEvent of the repository, for an event that the tenant has.
put_event_seen :
    (ctx : Option Error) (event existing : CanonicalEvent) (m : Memory)
    → ctx ≡ none
    → is_some (lookup event.tenant_id m.events) ≡ true
    → lookup₂ event.tenant_id event.id m.events ≡ some existing
    → Repository.put_event ctx event m ≡ (ok (existing, true), m)
put_event_seen none event existing m alive_0 registered there =
    ap (λ (r : (CanonicalEvent × Bool) × Memory). (ok r.0, r.1))
      (put_event_found event m existing registered there)
put_event_seen (some e) event existing m alive_0 registered there = absurd (ground (arith, alive_0))

-- An event whose identifier the tenant has already is answered with the stored event as a
-- duplicate, if normalize accepts it, the context is alive and the entity graph takes it: there is
-- no finding and no alert, and neither the repository nor the correlation store changes.
pub ingest_duplicate :
    (encoder : Encoder) (env : Env) (observe : CanonicalEvent → Option Error) (built : ℕ)
    (tenant : String) (input event existing : CanonicalEvent) (m : Memory)
    (correlations : MemoryCorrelationStore)
    → normalize encoder (env.clock 0) (env.new_id 0 "evt") tenant input ≡ ok event
    → env.ctx 0 ≡ none
    → is_some (lookup event.tenant_id m.events) ≡ true
    → lookup₂ event.tenant_id event.id m.events ≡ some existing
    → observe existing ≡ none
    → ingest encoder env observe built tenant input m correlations ≡ (
      ok (record { event = existing; findings = []; alerts = []; duplicate = true }),
      (m, correlations),
    )
unfolding ingest
ingest_duplicate encoder env observe built tenant input event existing m correlations accepted
      alive_0 registered there taken =
    let seen = put_event_seen (env.ctx 0) event existing m alive_0 registered there in
    rw (accepted, ingest)
      (ap (receive encoder env observe built tenant correlations) seen ∙ rw (taken, receive) refl)
