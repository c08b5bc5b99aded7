-- ===== src/Sigma/Parser.antt =====
-- conditionParser. A method returns the node with the tokens that are left; a loop is a function of
-- the node read so far. Each call costs a unit of fuel; `parse_tokens` gives enough (Sigma/Sound).
use mathlib.Core.List.{tail}
use kazutb_siem.Base.{
  ℕ, zero, suc, ◌+◌, ◌*◌, String, Bool, true, false, List, [], ◌∷◌, if◌then◌else◌, length, has,
}
use kazutb_siem.Base.Text.{equal_fold}
use kazutb_siem.Core.{Result, invalid_rule, out_of_fuel, wrap, ok, err, ◌>>=◌}
use kazutb_siem.Sigma.Condition.{tokenize_condition, Condition, selection, negation, binary}

-- A method of the parser.
abbrev pub Parser : Type 0
Parser = List String → Result (Condition × List String)

unfoldable pub peek : String → List String → Bool
unfolding equal_fold
peek value [] = false
peek value (token ∷ rest) = equal_fold token value

-- The name of a selection.
unfoldable pub parse_name : List String → Parser
unfolding has
parse_name names [] = err (wrap "unexpected end of condition" invalid_rule)
parse_name names (name ∷ rest) =
    if has name names
    then ok (selection name, rest)
    else err (wrap "condition references unknown selection" invalid_rule)

-- The closing parenthesis.
unfoldable pub close : Condition → Parser
unfolding peek
close node ts =
    if peek ")" ts
    then ok (node, tail ts)
    else err (wrap "missing closing parenthesis" invalid_rule)

unfoldable mutual
  pub parse_or : List String → ℕ → Parser
  parse_or names zero ts = err out_of_fuel
  parse_or names (suc f) ts = parse_and names f ts >>= λ (left, rest). or_rest names f left rest

  pub or_rest : List String → ℕ → Condition → Parser
  or_rest names zero left ts = err out_of_fuel
  or_rest names (suc f) left ts = elim (peek "or" ts) [
    | true ↦ parse_and names f (tail ts) >>= λ (right, rest).
        or_rest names f (binary "or" left right) rest
    | false ↦ ok (left, ts)
  ]

  pub parse_and : List String → ℕ → Parser
  parse_and names zero ts = err out_of_fuel
  parse_and names (suc f) ts = parse_unary names f ts >>= λ (left, rest). and_rest names f left rest

  pub and_rest : List String → ℕ → Condition → Parser
  and_rest names zero left ts = err out_of_fuel
  and_rest names (suc f) left ts = elim (peek "and" ts) [
    | true ↦ parse_unary names f (tail ts) >>= λ (right, rest).
        and_rest names f (binary "and" left right) rest
    | false ↦ ok (left, ts)
  ]

  pub parse_unary : List String → ℕ → Parser
  parse_unary names zero ts = err out_of_fuel
  parse_unary names (suc f) ts = elim (peek "not" ts) [
    | true ↦ parse_unary names f (tail ts) >>= λ (child, rest). ok (negation child, rest)
    | false ↦ elim (peek "(" ts) [
      | true ↦ parse_or names f (tail ts) >>= λ (node, rest). close node rest
      | false ↦ parse_name names ts
    ]
  ]

-- The test that no token is left.
unfoldable pub finish : Condition × List String → Result Condition
finish (node, []) = ok node
finish (node, token ∷ rest) = err (wrap "unexpected condition token" invalid_rule)

unfoldable pub parse_tokens : List String → List String → Result Condition
unfolding parse_or finish
parse_tokens names [] = err (wrap "empty condition" invalid_rule)
parse_tokens names ts = parse_or names (3 * length ts + 3) ts >>= finish

-- parseCondition; `names` are the keys of the map of selections.
unfoldable pub parse_condition : List String → String → Result Condition
unfolding tokenize_condition parse_tokens
parse_condition names input = parse_tokens names (tokenize_condition input)
