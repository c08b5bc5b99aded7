-- ===== src/Examples/Store.antt =====
-- The store's properties at concrete inputs.
use kazutb_siem.Base.{
  ne_of_eqb, ◌≤◌, ◌≡◌, refl, ◌≢◌, ◌⊎◌, true, none, some, [], ◌∷◌, map, arith, length, take, keep,
  All,
}
use mathlib.Core.List.{reverse, Mem}
use kazutb_siem.Base.Map.{lookup₂}
use kazutb_siem.Base.Text.{◌<>◌, trim_space, to_lower}
use kazutb_siem.Core.{CanonicalEvent, Alert, AuditEntry, version_conflict, ok, err}
use kazutb_siem.Tenant.{valid}
use kazutb_siem.Store.State.{new_memory, slice_at, normalized_limit, Memory}
use kazutb_siem.Store.Events.{
  zero_event, put_event, get_event, event_matches, list_events, EventFilter,
}
use kazutb_siem.Store.Alerts.{upsert_alert, mutate_alert}
use kazutb_siem.Store.Incidents.{store_incident}
use kazutb_siem.Store.Audit.{audit_body, audit_hash, append_audit, verify_chain, verify_audit}
use kazutb_siem.Store.WellFormed.{IsWellFormed}
use kazutb_siem.Store.Reachable.{Reach-IsWellFormed, Step, puts_event, appends_audit, here, next}
use kazutb_siem.Store.Isolation.{SameFor}
use kazutb_siem.Store.Chain.{Reach-verify_audit}
use kazutb_siem.Store.Tamper.{verify_chain-determined}
use kazutb_siem.Store.Separation.{Step-SameFor}
use kazutb_siem.Store.Listing.{list_events-eq-take, list_events_sound}
use kazutb_siem.Store.FirstEvent.{put_event-put_event, get_event-put_event}
use kazutb_siem.Store.Versions.{mutate_alert-conflict}
use kazutb_siem.Store.RequestIds.{with_request, verify_chain-with_request}
use kazutb_siem.Examples.Digest.{digest, digest-IsDigest}
use kazutb_siem.Examples.Data.{codec, event, alert, incident, entry}

abbrev with_event : Memory
with_event = (put_event event new_memory).1

Reach-verify_audit_example :
    verify_audit codec "n" (append_audit codec "aud" 5 entry new_memory).1 ≡ true
Reach-verify_audit_example =
    Reach-verify_audit codec (next "n" here (appends_audit "aud" 5 entry new_memory)) "n"

abbrev event_step : Step codec "north" new_memory with_event
event_step = puts_event event new_memory

Reach-IsWellFormed_example : IsWellFormed with_event
Reach-IsWellFormed_example = Reach-IsWellFormed (next "north" here event_step) (tt, tt)

-- The state is well formed, as the invariant of its one step.
Reach-IsWellFormed_event : IsWellFormed with_event
Reach-IsWellFormed_event = Reach-IsWellFormed (next "north" here event_step) (tt, tt)

Step-SameFor_example : SameFor "south" new_memory with_event
unfolding valid
Step-SameFor_example = Step-SameFor "south" event_step (ne_of_eqb "north" "south" refl) refl refl

abbrev sealed : AuditEntry
sealed = record entry { hash = audit_hash codec entry }

-- The two logs differ in the request identifier, which the digest leaves out.
verify_chain-determined_example :
    (map (λ e. e.previous_hash <> "|" <> audit_body codec e) (sealed ∷ [])
      ≡ map
          (λ e. e.previous_hash <> "|" <> audit_body codec e)
          (record sealed { request_id = "q" } ∷ []))
    ⊎ ((e : AuditEntry) × (f : AuditEntry) × Mem e (sealed ∷ [])
        × Mem f (record sealed { request_id = "q" } ∷ [])
        × (e.previous_hash <> "|" <> audit_body codec e
            ≢ f.previous_hash <> "|" <> audit_body codec f)
        × (audit_hash codec e ≡ audit_hash codec f))
unfolding verify_chain audit_hash audit_body digest
verify_chain-determined_example =
    verify_chain-determined codec (sealed ∷ []) (record sealed { request_id = "q" } ∷ [])
      {h = audit_hash codec entry} digest-IsDigest refl refl

verify_chain-with_request_example :
    verify_chain codec "" (map (with_request "q") (sealed ∷ []))
    ≡ verify_chain codec "" (sealed ∷ [])
verify_chain-with_request_example = verify_chain-with_request codec "q" "" (sealed ∷ [])

put_event-put_event_example : put_event event with_event ≡ ((event, true), with_event)
unfolding put_event
put_event-put_event_example = put_event-put_event event event new_memory refl refl

get_event-put_event_example : get_event "north" "e1" with_event ≡ ok event
unfolding put_event
get_event-put_event_example = get_event-put_event event new_memory "north" "e1"

abbrev with_alert : Memory
with_alert = (upsert_alert alert "k" 900 new_memory).1

abbrev with_incident : Memory
with_incident = (store_incident incident new_memory).1

abbrev saved_alert : Alert
saved_alert = record alert { version = 2; updated_at = 70 }

mutate_alert-conflict_example :
    mutate_alert "north" "a1" 1
      (λ a. ok a)
      80
      (mutate_alert "north" "a1" 1 (λ a. ok a) 70 with_alert).1
    ≡ (err version_conflict, (mutate_alert "north" "a1" 1 (λ a. ok a) 70 with_alert).1)
unfolding mutate_alert upsert_alert
mutate_alert-conflict_example =
    mutate_alert-conflict "north" "a1" 1 70 80 (λ a. ok a) (λ a. ok a) with_alert
      (mutate_alert "north" "a1" 1 (λ a. ok a) 70 with_alert).1 saved_alert refl
      (λ a b e. ground (arith, e)) refl

abbrev every_event : EventFilter
every_event = record { query = ""; category = ""; severity = 0; limit = 0 }

list_events-eq-take_example :
    list_events "north" every_event with_event
    ≡ take (normalized_limit 0) (
        keep (event_matches every_event (to_lower (trim_space ""))) (
          map
            (λ i. elim (lookup₂ "north" i with_event.events) [ none ↦ zero_event | some e ↦ e ])
            (reverse (slice_at "north" with_event.event_order))))
list_events-eq-take_example = list_events-eq-take "north" with_event every_event

list_events_sound_example :
    (length (list_events "north" every_event with_event) ≤ 500)
    × All
        (λ (e : CanonicalEvent).
          ((e.tenant_id ≡ "north") × (lookup₂ "north" e.id with_event.events ≡ some e))
          × (event_matches every_event (to_lower (trim_space "")) e ≡ true))
        (list_events "north" every_event with_event)
list_events_sound_example =
    list_events_sound "north" with_event every_event Reach-IsWellFormed_event

-- The alert is seen again, one second after the first time.
abbrev seen_again : Alert
seen_again = record alert { id = "a2"; last_seen = 51 }
