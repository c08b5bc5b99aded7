-- ===== src/Hunt/Predicates.antt =====
-- The count of validateExpression is that of the expression's predicates.
use kazutb_siem.Base.{
  ℕ, suc, ◌+◌, ◌≡◌, Option, none, some, inl, inr, arith, ltb, eqb, if◌then◌else◌, Bool-cases,
}
use kazutb_siem.Core.{◌>>◌, ◌>>=◌, ok_inv, bind_inv, guard_inv, ok}
use kazutb_siem.Hunt.Request.{
  expression, size, has_children, has_predicate, HuntExpression, Expressions, Negated, no_more,
  child, no_expression, pointer, HuntPredicate,
}
use kazutb_siem.Hunt.Validate.{
  branches, validate_expression, validate_group, validate_children, validate_single,
  validate_predicate, count_predicate, one_if,
}

-- The predicates in all parts of an expression.
unfoldable mutual
  pub predicates : HuntExpression → ℕ
  predicates (expression all any negated predicate) =
      predicates_of all
      + predicates_of any
      + predicates_under negated
      + one_if (has_predicate predicate)

  pub predicates_of : Expressions → ℕ
  predicates_of no_more = 0
  predicates_of (child e es) = predicates e + predicates_of es

  pub predicates_under : Negated → ℕ
  predicates_under no_expression = 0
  predicates_under (pointer e) = predicates e

count_predicate_lem :
    (predicate : Option HuntPredicate) (m n : ℕ)
    → count_predicate predicate m ≡ ok n
    → n ≡ m + one_if (has_predicate predicate)
unfolding count_predicate
count_predicate_lem none m n e = absurd (ground (arith, e))
count_predicate_lem (some predicate) m n e =
    let (few, e₁) = guard_inv (ltb 64 (suc m)) _ (validate_predicate predicate >> ok (suc m)) e in
    let (_, valid, counted) = bind_inv (validate_predicate predicate) (λ _. ok (suc m)) e₁ in
    ground (arith, ok_inv counted)

one_branch :
    (all any : Expressions) (negated : Negated) (predicate : Option HuntPredicate) (depth m n : ℕ)
    → validate_expression (expression all any negated predicate) depth m ≡ ok n
    → branches all any negated predicate ≡ 1
unfolding validate_expression
one_branch all any negated predicate depth m n h = elim (Bool-cases (ltb 8 depth)) [
  | inl x ↦ absurd (ground (arith, x, h))
  | inr x ↦ elim (Bool-cases (eqb (branches all any negated predicate) 1)) [
    | inl y ↦ ground (arith, y)
    | inr y ↦ absurd (ground (arith, x, y, h))
  ]
]

-- What is left to check of an expression that passed the tests on its depth and its branches.
pub branch_lem :
    (all any : Expressions) (negated : Negated) (predicate : Option HuntPredicate) (depth m n : ℕ)
    → validate_expression (expression all any negated predicate) depth m ≡ ok n
    → (if has_children any
        then validate_group any depth m
        else if has_children all
        then validate_group all depth m
        else validate_single negated predicate depth m)
      ≡ ok n
unfolding validate_expression
branch_lem all any negated predicate depth m n h = elim (Bool-cases (ltb 8 depth)) [
  | inl x ↦ absurd (ground (arith, x, h))
  | inr x ↦ elim (Bool-cases (eqb (branches all any negated predicate) 1)) [
    | inl y ↦ ground (arith, x, y, h)
    | inr y ↦ absurd (ground (arith, x, y, h))
  ]
]

pub group_lem :
    (e : HuntExpression) (es : Expressions) (depth m n : ℕ)
    → validate_group (child e es) depth m ≡ ok n
    → (validate_expression e (suc depth) m >>= λ c. validate_children es (suc depth) c) ≡ ok n
unfolding validate_expression
group_lem e es depth m n h = elim (Bool-cases (ltb 32 (size (child e es)))) [
  | inl x ↦ absurd (ground (arith, x, h))
  | inr x ↦ ground (arith, x, h)
]

-- Of the parts, those that the code does not take have no predicates.
only_any :
    (e : HuntExpression) (es all : Expressions) (negated : Negated)
    (predicate : Option HuntPredicate)
    → branches all (child e es) negated predicate ≡ 1
    → predicates (expression all (child e es) negated predicate) ≡ predicates_of (child e es)
unfolding predicates branches
only_any e es no_more no_expression none h = ground arith
only_any e es (child f fs) negated predicate h = absurd (ground (arith, h))
only_any e es no_more (pointer f) predicate h = absurd (ground (arith, h))
only_any e es no_more no_expression (some p) h = absurd (ground (arith, h))

only_all :
    (e : HuntExpression) (es : Expressions) (negated : Negated) (predicate : Option HuntPredicate)
    → branches (child e es) no_more negated predicate ≡ 1
    → predicates (expression (child e es) no_more negated predicate) ≡ predicates_of (child e es)
unfolding predicates branches
only_all e es no_expression none h = ground arith
only_all e es (pointer f) predicate h = absurd (ground (arith, h))
only_all e es no_expression (some p) h = absurd (ground (arith, h))

mutual
  unfolding predicates branches validate_expression

  expression_counted :
      (e : HuntExpression) (depth m n : ℕ)
      → validate_expression e depth m ≡ ok n
      → n ≡ m + predicates e
  expression_counted (expression all (child e es) negated predicate) depth m n h = ground (
    arith,
    only_any e es all negated predicate (one_branch all (child e es) negated predicate depth m n h),
    group_counted (child e es) depth m n
        (branch_lem all (child e es) negated predicate depth m n h),
  )
  expression_counted (expression (child e es) no_more negated predicate) depth m n h = ground (
    arith,
    only_all e es negated predicate (one_branch (child e es) no_more negated predicate depth m n h),
    group_counted (child e es) depth m n
        (branch_lem (child e es) no_more negated predicate depth m n h),
  )
  expression_counted (expression no_more no_more negated predicate) depth m n h = omega (
    arith,
    single_counted negated predicate depth m n
        (one_branch no_more no_more negated predicate depth m n h)
        (branch_lem no_more no_more negated predicate depth m n h),
  )

  group_counted :
      (es : Expressions) (depth m n : ℕ)
      → validate_group es depth m ≡ ok n
      → n ≡ m + predicates_of es
  group_counted no_more depth m n h = ground (arith, h)
  group_counted (child e es) depth m n h =
      let (counted, first, others) =
        bind_inv (validate_expression e (suc depth) m) (λ c. validate_children es (suc depth) c)
          (group_lem e es depth m n h) in
      omega (
        arith,
        expression_counted e (suc depth) m counted first,
        children_counted es (suc depth) counted n others,
      )

  children_counted :
      (es : Expressions) (depth m n : ℕ)
      → validate_children es depth m ≡ ok n
      → n ≡ m + predicates_of es
  children_counted no_more depth m n h = ground (arith, h)
  children_counted (child e es) depth m n h =
      let (counted, first, others) =
        bind_inv (validate_expression e depth m) (λ c. validate_children es depth c) h in
      omega (
        arith,
        expression_counted e depth m counted first,
        children_counted es depth counted n others,
      )

  single_counted :
      (negated : Negated) (predicate : Option HuntPredicate) (depth m n : ℕ)
      → branches no_more no_more negated predicate ≡ 1
      → validate_single negated predicate depth m ≡ ok n
      → n ≡ m + (predicates_under negated + one_if (has_predicate predicate))
  single_counted (pointer e) none depth m n one h =
      omega (arith, expression_counted e (suc depth) m n h)
  single_counted (pointer e) (some p) depth m n one h = absurd (ground (arith, one))
  single_counted no_expression predicate depth m n one h =
      omega (arith, count_predicate_lem predicate m n h)

pub validate_expression_counts :
    (e : HuntExpression) (depth m n : ℕ)
    → validate_expression e depth m ≡ ok n
    → n ≡ m + predicates e
validate_expression_counts = expression_counted
