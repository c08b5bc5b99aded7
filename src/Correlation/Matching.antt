-- ===== src/Correlation/Matching.antt =====
-- The temporal matches against what they are meant to find: a record for each rule, with events
-- that differ from one another.
use kazutb_siem.Base.{
  String, ◌≡◌, refl, sym, ap, subst, ◌⊎◌, inl, inr, true, Option, none, some, List, [], ◌∷◌, ◌++◌,
  arith, Bool-cases, Option-cases,
}
use kazutb_siem.Correlation.Records.{CorrelationRecord}
use kazutb_siem.Correlation.Temporal.{fits, try_each, assign, find_from, in_order}

-- A record of the rule that has the event, which is not used.
abbrev pub Takes : String → List String → String → List CorrelationRecord → Type 0
Takes rule used id [] = ⊥
Takes rule used id (r ∷ rs) =
    ((fits rule used r ≡ true) × (r.event_id ≡ id)) ⊎ Takes rule used id rs

-- Each rule takes a record, of an event that is neither used nor taken by another rule.
abbrev pub Assigned : List CorrelationRecord → List String → List String → List String → Type 0
Assigned records [] used [] = Unit
Assigned records [] used (i ∷ ids) = ⊥
Assigned records (rule ∷ rules) used [] = ⊥
Assigned records (rule ∷ rules) used (i ∷ ids) =
    Takes rule used i records × Assigned records rules (i ∷ used) ids

-- What `try_each` returns starts with an event that a candidate has, and goes on as `next` says.
try_each-Takes :
    (go_on : List String → Option (List String)) (rule : String) (used : List String)
    (candidates : List CorrelationRecord) (ids : List String)
    → try_each go_on rule used candidates ≡ some ids
    → (i : String) × (rest : List String) × (ids ≡ i ∷ rest)
      × Takes rule used i candidates
      × (go_on (i ∷ used) ≡ some rest)
unfolding try_each
try_each-Takes go_on rule used [] ids e = absurd (ground (arith, e))
try_each-Takes go_on rule used (r ∷ rs) ids e = elim (Bool-cases (fits rule used r)) [
  | inl fit ↦ elim (Option-cases (go_on (r.event_id ∷ used))) [
    | inl stuck ↦
        let (i, rest, same, taken, onward) =
          try_each-Takes go_on rule used rs ids (ground (arith, e, fit, stuck)) in
        (i, rest, same, inr taken, onward)
    | inr (rest, onward) ↦
        (r.event_id, rest, ground (arith, e, fit, onward), inl (fit, refl), onward)
  ]
  | inr misfit ↦
      let (i, rest, same, taken, onward) =
        try_each-Takes go_on rule used rs ids (ground (arith, e, misfit)) in
      (i, rest, same, inr taken, onward)
]

-- If `try_each` finds nothing, then `next` finds nothing after any event that a candidate has.
try_each_stuck :
    (go_on : List String → Option (List String)) (rule : String) (used : List String)
    (candidates : List CorrelationRecord) (i : String)
    → try_each go_on rule used candidates ≡ none
    → Takes rule used i candidates
    → go_on (i ∷ used) ≡ none
unfolding try_each
try_each_stuck go_on rule used [] i e x = elim x [ ]
try_each_stuck go_on rule used (r ∷ rs) i e (inl (fit, same)) =
    elim (Option-cases (go_on (r.event_id ∷ used))) [
      | inl stuck ↦ subst (λ k. go_on (k ∷ used) ≡ none) same stuck
      | inr (rest, onward) ↦ absurd (ground (arith, e, fit, onward))
    ]
try_each_stuck go_on rule used (r ∷ rs) i e (inr taken) = elim (Bool-cases (fits rule used r)) [
  | inl fit ↦ elim (Option-cases (go_on (r.event_id ∷ used))) [
    | inl stuck ↦ try_each_stuck go_on rule used rs i (ground (arith, e, fit, stuck)) taken
    | inr (rest, onward) ↦ absurd (ground (arith, e, fit, onward))
  ]
  | inr misfit ↦ try_each_stuck go_on rule used rs i (ground (arith, e, misfit)) taken
]

-- The search without an order is sound: the events that it returns are an assignment, one event
-- for each rule, no event twice and none of the events used before.
pub assign-Assigned :
    (records : List CorrelationRecord) (rules used ids : List String)
    → assign records rules used ≡ some ids
    → Assigned records rules used ids
unfolding assign
assign-Assigned records [] used [] e = tt
assign-Assigned records [] used (i ∷ ids) e = absurd (ground (arith, e))
assign-Assigned records (rule ∷ rules) used ids e =
    let (i, rest, same, taken, onward) =
      try_each-Takes (λ more. assign records rules more) rule used records ids e in
    subst (Assigned records (rule ∷ rules) used) (sym same)
      (taken, assign-Assigned records rules (i ∷ used) rest onward)

-- It is complete: if it finds nothing, there is no assignment.
pub assign_complete :
    (records : List CorrelationRecord) (rules used ids : List String)
    → assign records rules used ≡ none
    → ¬ Assigned records rules used ids
unfolding assign
assign_complete records [] used ids e a = ground (arith, e)
assign_complete records (rule ∷ rules) used [] e a = a
assign_complete records (rule ∷ rules) used (i ∷ ids) e a =
    assign_complete records rules (i ∷ used) ids
      (try_each_stuck (λ more. assign records rules more) rule used records i e a.0) a.1

-- Each rule takes a record after the one before, of an event that is neither used nor taken.
abbrev pub InOrder : List String → List String → List CorrelationRecord → List String → Type 0
InOrder [] used records [] = Unit
InOrder [] used records (i ∷ ids) = ⊥
InOrder (rule ∷ rules) used records [] = ⊥
InOrder (rule ∷ rules) used records (i ∷ ids) =
    (before : List CorrelationRecord) × (r : CorrelationRecord) × (after : List CorrelationRecord)
    × (records ≡ before ++ r ∷ after)
    × (fits rule used r ≡ true)
    × (r.event_id ≡ i)
    × InOrder rules (i ∷ used) after ids

find_from_lem :
    (rule : String) (used : List String) (records : List CorrelationRecord) (r : CorrelationRecord)
    (after : List CorrelationRecord)
    → find_from rule used records ≡ some (r, after)
    → (before : List CorrelationRecord) × (records ≡ before ++ r ∷ after)
      × (fits rule used r ≡ true)
unfolding find_from
find_from_lem rule used [] r after e = absurd (ground (arith, e))
find_from_lem rule used (s ∷ ss) r after e = elim (Bool-cases (fits rule used s)) [
  | inl fit ↦ ([], ground (arith, e, fit), ground (arith, e, fit))
  | inr misfit ↦
      let (before, same, fit) = find_from_lem rule used ss r after (ground (arith, e, misfit)) in
      (s ∷ before, ap (λ rest. s ∷ rest) same, fit)
]

-- The search in order is sound: the events that it returns are those of records that follow one
-- another in the input, one for each rule, and no event occurs twice.
pub in_order-InOrder :
    (rules used : List String) (records : List CorrelationRecord) (ids : List String)
    → in_order rules used records ≡ some ids
    → InOrder rules used records ids
unfolding in_order
in_order-InOrder [] used records [] e = tt
in_order-InOrder [] used records (i ∷ ids) e = absurd (ground (arith, e))
in_order-InOrder (rule ∷ rules) used records ids e =
    elim (Option-cases (find_from rule used records)) [
      | inl nowhere ↦ absurd (ground (arith, e, nowhere))
      | inr ((r, after), found) ↦ elim (Option-cases (in_order rules (r.event_id ∷ used) after)) [
        | inl stuck ↦ absurd (ground (arith, e, found, stuck))
        | inr (rest, onward) ↦
            let (before, same, fit) = find_from_lem rule used records r after found in
            let ids_same : r.event_id ∷ rest ≡ ids = ground (arith, e, found, onward) in
            subst (InOrder (rule ∷ rules) used records) ids_same (
              before,
              r,
              after,
              same,
              fit,
              refl,
              in_order-InOrder rules (r.event_id ∷ used) after rest onward,
            )
      ]
    ]
