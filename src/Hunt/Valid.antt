-- ===== src/Hunt/Valid.antt =====
-- An expression that is valid compiles.
use kazutb_siem.Base.{
  suc, subst, ltb, ◌*◌, Option, none, some, length-append, inl, inr, arith, ℕ, ◌+◌, ◌≤◌, String,
  ◌≡◌, List, length,
}
use kazutb_siem.Core.{◌>>◌, Result-cases, ok_inv, bind_inv, guard_inv, ◌>>=◌, Result, ok, err}
use kazutb_siem.Hunt.Validate.{
  validate_expression, validate_group, validate_children, validate_single, validate_predicate,
  count_predicate,
}
use kazutb_siem.Hunt.Predicates.{predicates, branch_lem, group_lem, validate_expression_counts}
use kazutb_siem.Hunt.Compile.{
  together, negation_of, compile_node, compile_children, compile_single, Compiled,
  compile_predicate, compile_leaf, with_siblings, Argument,
}
use kazutb_siem.Hunt.Request.{
  expression, HuntExpression, Expressions, Negated, no_more, child, no_expression, pointer,
  HuntPredicate,
}
use kazutb_siem.Hunt.Bounded.{
  CompilesWithin, CompilesWithin-bind, compile_predicate-CompilesWithin, CompilesWithin-shift,
}

-- The count of the valid predicates goes from m to n, and their arguments are at most 100 for each.
abbrev IsCounted {ℓ} : {A : Type ℓ} → ℕ → ℕ → Result (A × List Argument) → Type 0
IsCounted m n r = (m ≤ 64 → n ≤ 64) × CompilesWithin (100 * m) (100 * n) r

compile_leaf-IsCounted :
    (predicate : Option HuntPredicate) (m n : ℕ)
    → count_predicate predicate m ≡ ok n
    → IsCounted m n (compile_leaf predicate)
unfolding compile_leaf count_predicate
compile_leaf-IsCounted none m n e = absurd (ground (arith, e))
compile_leaf-IsCounted (some predicate) m n e =
    let (few, e₁) = guard_inv (ltb 64 (suc m)) _ (validate_predicate predicate >> ok (suc m)) e in
    let (_, valid, counted) = bind_inv (validate_predicate predicate) (λ _. ok (suc m)) e₁ in
    subst (λ k. IsCounted m k (compile_predicate predicate)) (ok_inv counted)
      (
        (λ x. ground (arith, few)),
        CompilesWithin-shift m (compile_predicate predicate)
            (compile_predicate-CompilesWithin predicate valid),
      )

IsCounted-bind {ℓ κ} :
    {A : Type ℓ} {B : Type κ} (m n : ℕ) (r : Result (A × List Argument))
    (f : A × List Argument → Result (B × List Argument))
    → ((a : A) (args : List Argument)
        → 100 * m + length args ≤ 100 * n
        → CompilesWithin (100 * m) (100 * n) (f (a, args)))
    → IsCounted m n r
    → IsCounted m n (r >>= f)
IsCounted-bind m n r f g h = (h.0, CompilesWithin-bind (100 * m) (100 * n) (100 * n) r f h.1 g)

with_siblings-IsCounted :
    (m c n : ℕ) (first : Compiled) (others : Result (List String × List Argument))
    → IsCounted m c first
    → IsCounted c n others
    → IsCounted m n (first >>= with_siblings others)
with_siblings-IsCounted m c n (ok (part, child_args)) (ok (parts, args)) h k =
    ((λ x. k.0 (h.0 x)), omega (arith, h.1, k.1, length-append child_args args))
with_siblings-IsCounted m c n (ok (part, child_args)) (err e) h k = elim k.1 [ ]
with_siblings-IsCounted m c n (err e) others h k = elim h.1 [ ]

mutual
  unfolding validate_expression compile_node

  expression-IsCounted :
      (e : HuntExpression) (depth m n : ℕ)
      → validate_expression e depth m ≡ ok n
      → IsCounted m n (compile_node e)
  expression-IsCounted (expression all (child e es) negated predicate) depth m n h =
      IsCounted-bind m n (compile_children (child e es)) (together " OR ") (λ parts args k. k)
        (group-IsCounted (child e es) depth m n
          (branch_lem all (child e es) negated predicate depth m n h))
  expression-IsCounted (expression (child e es) no_more negated predicate) depth m n h =
      IsCounted-bind m n (compile_children (child e es)) (together " AND ") (λ parts args k. k)
        (group-IsCounted (child e es) depth m n
          (branch_lem (child e es) no_more negated predicate depth m n h))
  expression-IsCounted (expression no_more no_more negated predicate) depth m n h =
      single-IsCounted negated predicate depth m n
        (branch_lem no_more no_more negated predicate depth m n h)

  group-IsCounted :
      (es : Expressions) (depth m n : ℕ)
      → validate_group es depth m ≡ ok n
      → IsCounted m n (compile_children es)
  group-IsCounted no_more depth m n h = ((λ x. ground (arith, h, x)), ground (arith, h))
  group-IsCounted (child e es) depth m n h =
      let (counted, first, others) =
        bind_inv (validate_expression e (suc depth) m) (λ c. validate_children es (suc depth) c)
          (group_lem e es depth m n h) in
      with_siblings-IsCounted m counted n (compile_node e) (compile_children es)
        (expression-IsCounted e (suc depth) m counted first)
        (children-IsCounted es (suc depth) counted n others)

  children-IsCounted :
      (es : Expressions) (depth m n : ℕ)
      → validate_children es depth m ≡ ok n
      → IsCounted m n (compile_children es)
  children-IsCounted no_more depth m n h = ((λ x. ground (arith, h, x)), ground (arith, h))
  children-IsCounted (child e es) depth m n h =
      let (counted, first, others) =
        bind_inv (validate_expression e depth m) (λ c. validate_children es depth c) h in
      with_siblings-IsCounted m counted n (compile_node e) (compile_children es)
        (expression-IsCounted e depth m counted first)
        (children-IsCounted es depth counted n others)

  single-IsCounted :
      (negated : Negated) (predicate : Option HuntPredicate) (depth m n : ℕ)
      → validate_single negated predicate depth m ≡ ok n
      → IsCounted m n (compile_single negated predicate)
  single-IsCounted (pointer e) predicate depth m n h =
      IsCounted-bind m n (compile_node e) negation_of (λ part args k. k)
        (expression-IsCounted e (suc depth) m n h)
  single-IsCounted no_expression predicate depth m n h = compile_leaf-IsCounted predicate m n h

-- If an expression is valid, then the count that the check returns is that of the predicates in the
-- expression, there are at most 64 of them, and the expression compiles, to at most 100 arguments
-- for each predicate.
pub validate_expression-compile_node :
    (e : HuntExpression) (n : ℕ)
    → validate_expression e 1 0 ≡ ok n
    → (n ≡ predicates e)
      × (predicates e ≤ 64)
      × ((sql : String) × (args : List Argument) × ((compile_node e ≡ ok (sql, args))
            × (length args ≤ 100 * predicates e)))
validate_expression-compile_node e n h =
    let counts = validate_expression_counts e 1 0 n h in
    let counted = expression-IsCounted e 1 0 n h in
    (
      omega (arith, counts),
      omega (arith, counts, counted.0 (omega arith)),
      elim (Result-cases (compile_node e)) [
        | inl (failure, f) ↦ elim (subst (CompilesWithin 0 (100 * n)) f counted.1) [ ]
        | inr ((sql, args), f) ↦
            (sql, args, (f, omega (arith, counts, subst (CompilesWithin 0 (100 * n)) f counted.1)))
      ],
    )
