-- ===== src/Hunt/Request.antt =====
-- HuntPredicate, HuntExpression and HuntRequest. A list of expressions and the pointer to one are data
-- types of their own.
use kazutb_siem.Base.{ℕ, suc, String, Bool, true, false, Option, none, some, List}
use kazutb_siem.Base.Int.{ℤ}

pub record HuntPredicate : Type 0 where
  pub field : String
  pub comparator : String
  pub value : String
  pub values : List String

mutual
  -- The fields `all`, `any`, `not` and `predicate`.
  pub data HuntExpression : Type 0 where
    expression : Expressions → Expressions → Negated → Option HuntPredicate → HuntExpression

  pub data Expressions : Type 0 where
    no_more : Expressions
    child : HuntExpression → Expressions → Expressions

  -- *HuntExpression
  pub data Negated : Type 0 where
    no_expression : Negated
    pointer : HuntExpression → Negated

abbrev pub size : Expressions → ℕ
size no_more = 0
size (child e es) = suc (size es)

abbrev pub has_children : Expressions → Bool
has_children no_more = false
has_children (child e es) = true

abbrev pub has_pointer : Negated → Bool
has_pointer no_expression = false
has_pointer (pointer e) = true

abbrev pub has_predicate : Option HuntPredicate → Bool
has_predicate none = false
has_predicate (some p) = true

pub record HuntRequest : Type 0 where
  pub start : ℕ
  pub end_at : ℕ  -- end
  pub lookback_seconds : ℤ
  pub expression : Option HuntExpression
  pub limit : ℤ
  pub cursor : String
