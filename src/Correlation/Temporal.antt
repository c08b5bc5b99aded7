-- ===== src/Correlation/Temporal.antt =====
-- matchTemporal. A rule takes a record of its own whose event no other rule has taken.
use kazutb_siem.Base.{
  String, Bool, true, false, ◌&&◌, not, Option, none, some, List, [], ◌∷◌, ◌==◌, if◌then◌else◌, has,
}
use kazutb_siem.Correlation.Records.{CorrelationRecord}

unfoldable pub fits : String → List String → CorrelationRecord → Bool
unfolding has
fits rule used r = r.source_rule_id == rule && not (has r.event_id used)

-- The loop of `assign`: `next` is the call for the next position with the events used so far.
unfoldable pub try_each :
    (List String → Option (List String))
    → String
    → List String
    → List CorrelationRecord
    → Option (List String)
unfolding fits
try_each next rule used [] = none
try_each next rule used (r ∷ rs) = elim (fits rule used r) [
  | true ↦ elim (next (r.event_id ∷ used)) [
    | some ids ↦ some (r.event_id ∷ ids)
    | none ↦ try_each next rule used rs
  ]
  | false ↦ try_each next rule used rs
]

-- `assign`, from the position where the rules begin
unfoldable pub assign : List CorrelationRecord → List String → List String → Option (List String)
unfolding try_each
assign records [] used = some []
assign records (rule ∷ rules) used = try_each (λ more. assign records rules more) rule used records

-- The loop over the records from `position`: the record found and those after it.
unfoldable pub find_from :
    String
    → List String
    → List CorrelationRecord
    → Option (CorrelationRecord × List CorrelationRecord)
unfolding fits
find_from rule used [] = none
find_from rule used (r ∷ rs) =
    let rest = find_from rule used rs in if fits rule used r then some (r, rs) else rest

-- The loop over the rules, each from the record after the one before.
unfoldable pub in_order : List String → List String → List CorrelationRecord → Option (List String)
unfolding find_from
in_order [] used records = some []
in_order (rule ∷ rules) used records = elim (find_from rule used records) [
  | none ↦ none
  | some (r, rest) ↦ elim (in_order rules (r.event_id ∷ used) rest) [
    | none ↦ none
    | some ids ↦ some (r.event_id ∷ ids)
  ]
]

unfoldable pub match_temporal : List String → List CorrelationRecord → Bool → Option (List String)
unfolding assign in_order
match_temporal rules records false = assign records rules []
match_temporal rules records true = in_order rules [] records
