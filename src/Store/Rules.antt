-- ===== src/Store/Rules.antt =====
-- SetRules and ListRules.
use kazutb_siem.Base.{List, [], ◌∷◌, ltb, if◌then◌else◌}
use kazutb_siem.Core.{DetectionRule}
use kazutb_siem.Store.State.{Memory}

unfoldable pub set_rules : List DetectionRule → Memory → Memory
set_rules rules m = record m { rules = rules }

unfoldable pub insert_rule : DetectionRule → List DetectionRule → List DetectionRule
insert_rule r [] = r ∷ []
insert_rule r (x ∷ xs) =
    let later = insert_rule r xs in if ltb r.updated_at x.updated_at then x ∷ later else r ∷ x ∷ xs

unfoldable pub by_update : List DetectionRule → List DetectionRule
unfolding insert_rule
by_update [] = []
by_update (r ∷ rs) = insert_rule r (by_update rs)

-- sort.Slice by UpdatedAt, the latest first; among equal times sort.Slice promises no order
unfoldable pub list_rules : Memory → List DetectionRule
unfolding by_update
list_rules m = by_update m.rules
