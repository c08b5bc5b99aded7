-- ===== src/Store/Listing.antt =====
-- What the List methods return: the newest matching objects of the tenant, and nothing else.
use native.Mathlib.Nat.{le_trans}
use mathlib.Core.List.{reverse, reverse_aux}
use kazutb_siem.Base.{
  ℕ, zero, suc, ◌≤◌, String, ◌≡◌, inl, inr, Bool, true, none, some, List, [], ◌∷◌, map, arith,
  eq_refl, Bool-cases, Option-cases, length, take, keep, All, has,
}
use kazutb_siem.Base.Map.{Map, lookup₂}
use kazutb_siem.Base.Text.{trim_space, to_lower}
use kazutb_siem.Core.{CanonicalEvent, Alert}
use kazutb_siem.Store.State.{slice_at, normalized_limit, Memory}
use kazutb_siem.Store.Scan.{scan, scan-eq-take}
use kazutb_siem.Store.Indexed.{IsIndexed}
use kazutb_siem.Store.WellFormed.{IsWellFormed}
use kazutb_siem.Store.Events.{EventFilter, event_matches, list_events, zero_event}
use kazutb_siem.Store.Alerts.{AlertFilter, alert_matches, list_alerts, zero_alert}

module _ {ℓ} {A : Type ℓ} where
  All-reverse_aux {κ} :
      (P : A → Type κ) (xs acc : List A) → All P xs → All P acc → All P (reverse_aux xs acc)
  All-reverse_aux P [] acc h k = k
  All-reverse_aux P (x ∷ xs) acc h k = All-reverse_aux P xs (x ∷ acc) h.1 (h.0, k)

-- What holds of each text that is in the list holds of all.
All-has {κ} :
    (P : String → Type κ) (xs : List String) → ((k : String) → has k xs ≡ true → P k) → All P xs
unfolding has
All-has P [] h = tt
All-has P (x ∷ xs) h =
    (h x (ground (arith, eq_refl x)), All-has P xs (λ k p. h k (ground (arith, p))))

module _ {ℓ} {A : Type ℓ} (read : String → A) (matches : A → Bool) where
  scan-All {κ} :
      (P : A → Type κ) (room : ℕ) (ids : List String)
      → All (λ i. P (read i)) ids
      → All (λ v. P v × (matches v ≡ true)) (scan read matches room ids)
  unfolding scan
  scan-All P zero ids h = tt
  scan-All P (suc room) [] h = tt
  scan-All P (suc room) (i ∷ is) h = elim (Bool-cases (matches (read i))) [
    | inl e ↦ rw e ((h.0, e), scan-All P room is h.1)
    | inr e ↦ rw e (scan-All P (suc room) is h.1)
  ]

  length-scan-le : (room : ℕ) (ids : List String) → length (scan read matches room ids) ≤ room
  unfolding scan
  length-scan-le zero ids = omega arith
  length-scan-le (suc room) [] = omega arith
  length-scan-le (suc room) (i ∷ is) = elim (Bool-cases (matches (read i))) [
    | inl e ↦ rw e (omega (arith, length-scan-le room is))
    | inr e ↦ rw e (length-scan-le (suc room) is)
  ]

normalized_limit-le : (n : ℕ) → normalized_limit n ≤ 500
unfolding normalized_limit
normalized_limit-le n = ground arith

-- m[t][i], with Go's zero value for a missing object
abbrev read_or {ℓ} : {V : Type ℓ} → V → String → Map (Map V) → String → V
read_or zero_value t objects i = elim (lookup₂ t i objects) [ none ↦ zero_value | some v ↦ v ]

module _ {V : Type 0} (tenant_of id_of : V → String) (zero_value : V) (matches : V → Bool)
    (objects : Map (Map V)) (order : Map (List String)) (t : String)
    (h : IsIndexed tenant_of id_of objects order) where
  -- The object is the tenant's, and is stored under its own identifier.
  abbrev IsStored : V → Type 0
  IsStored v = (tenant_of v ≡ t) × (lookup₂ t (id_of v) objects ≡ some v)

  read_or-IsStored :
      (k : String) → has k (slice_at t order) ≡ true → IsStored (read_or zero_value t objects k)
  read_or-IsStored k p = elim (Option-cases (lookup₂ t k objects)) [
    | inl e ↦ absurd (ground (arith, h.listed t k, p, e))
    | inr (v, e) ↦ rw (e, read_or) (let own = h.keyed t k v e in (own.0, rw own.1 e))
  ]

  listing_sound :
      (limit : ℕ)
      → (length (
            scan
              (read_or zero_value t objects)
              matches
              (normalized_limit limit)
              (reverse (slice_at t order)))
          ≤ 500)
        × All
            (λ v. IsStored v × (matches v ≡ true))
            (scan
              (read_or zero_value t objects)
              matches
              (normalized_limit limit)
              (reverse (slice_at t order)))
  listing_sound limit = (
    le_trans
        (length-scan-le (read_or zero_value t objects) matches (normalized_limit limit)
          (reverse (slice_at t order)))
        (normalized_limit-le limit),
    scan-All (read_or zero_value t objects) matches IsStored (normalized_limit limit)
        (reverse (slice_at t order))
        (All-reverse_aux (λ k. IsStored (read_or zero_value t objects k)) (slice_at t order) []
          (All-has (λ k. IsStored (read_or zero_value t objects k)) (slice_at t order)
            read_or-IsStored)
          tt),
  )

module _ (t : String) (m : Memory) where
  -- ListEvents returns the newest events of the tenant that pass the filter, up to the limit.
  pub list_events-eq-take :
      (filter : EventFilter)
      → list_events t filter m
        ≡ take (normalized_limit filter.limit) (
            keep (event_matches filter (to_lower (trim_space filter.query))) (
              map
                (λ i. elim (lookup₂ t i m.events) [ none ↦ zero_event | some e ↦ e ])
                (reverse (slice_at t m.event_order))))
  unfolding list_events
  list_events-eq-take filter = scan-eq-take _ _ _ _

  -- In a well-formed store ListEvents returns at most 500 events, each of the tenant, each that
  -- GetEvent returns under its identifier, and each passing the filter.
  pub list_events_sound :
      (filter : EventFilter)
      → IsWellFormed m
      → (length (list_events t filter m) ≤ 500)
        × All
            (λ (e : CanonicalEvent).
              ((e.tenant_id ≡ t) × (lookup₂ t e.id m.events ≡ some e))
              × (event_matches filter (to_lower (trim_space filter.query)) e ≡ true))
            (list_events t filter m)
  unfolding list_events
  list_events_sound filter w =
      listing_sound (λ (e : CanonicalEvent). e.tenant_id) (λ e. e.id) zero_event
        (event_matches filter (to_lower (trim_space filter.query))) m.events m.event_order t
        w.events filter.limit

  -- So does ListAlerts for alerts.
  pub list_alerts_sound :
      (filter : AlertFilter)
      → IsWellFormed m
      → (length (list_alerts t filter m) ≤ 500)
        × All
            (λ (a : Alert).
              ((a.tenant_id ≡ t) × (lookup₂ t a.id m.alerts ≡ some a))
              × (alert_matches filter (to_lower (trim_space filter.query)) a ≡ true))
            (list_alerts t filter m)
  unfolding list_alerts
  list_alerts_sound filter w =
      listing_sound (λ (a : Alert). a.tenant_id) (λ a. a.id) zero_alert
        (alert_matches filter (to_lower (trim_space filter.query))) m.alerts m.alert_order t
        w.alerts filter.limit
