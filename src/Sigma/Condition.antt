-- ===== src/Sigma/Condition.antt =====
-- conditionNode and its implementations, and tokenizeCondition.
use Prim.Native.Char.{code}
use kazutb_siem.Base.{
  String, ◌≡◌, refl, Bool, ◌&&◌, ◌||◌, not, List, [], ◌∷◌, ◌==◌, eqb, if◌then◌else◌,
}
use kazutb_siem.Base.Text.{◌<>◌, fields}

-- selectionNode, notNode and binaryNode
pub data Condition : Type 0 where
  selection : String → Condition
  negation : Condition → Condition
  binary : String → Condition → Condition → Condition

-- `values` is the map of the selections' results.
unfoldable pub evaluate : (String → Bool) → Condition → Bool
evaluate values (selection name) = values name
evaluate values (negation child) = not (evaluate values child)
evaluate values (binary operator left right) =
    if operator == "and"
    then evaluate values left && evaluate values right
    else evaluate values left || evaluate values right

-- The replacer, which puts spaces around the parentheses.
unfoldable pub spaced : String → String
spaced String.[] = ""
spaced (String.◌∷◌ c s) =
    let rest = spaced s in
    if eqb (code c) b'('
    then " ( " <> rest
    else if eqb (code c) b')'
    then " ) " <> rest
    else String.◌∷◌ c rest

unfoldable pub tokenize_condition : String → List String
unfolding spaced fields
tokenize_condition value = fields (spaced value)

tokenize_condition_lem :
    tokenize_condition "a or(not b)" ≡ "a" ∷ "or" ∷ "(" ∷ "not" ∷ "b" ∷ ")" ∷ []
unfolding tokenize_condition
tokenize_condition_lem = refl
