-- ===== src/Hunt/Bounded.antt =====
-- The arguments of a predicate that is valid.
use kazutb_siem.Base.{
  else_of, then_of, suc, Bool, ltb, eqb, if◌then◌else◌, ◌*◌, ◌∷◌, refl, inl, inr, not, [], arith,
  Bool-cases, ℕ, ◌+◌, ◌≤◌, String, ◌≡◌, true, false, ◌||◌, List, ◌==◌, length,
}
use kazutb_siem.Base.Text.{◌<>◌}
use kazutb_siem.Hunt.Placeholders.{length-arguments}
use kazutb_siem.Core.{invalid_query, wrap, bind_inv, guard_inv, ◌>>=◌, Result, ok, err}
use kazutb_siem.Hunt.Fields.{
  resolve_field, Kind, FieldDefinition, number_kind, text_kind, string_kind,
}
use kazutb_siem.Hunt.Validate.{
  validate_value, validate_values, comparator_of, validate_predicate, validate_comparison,
  is_allowed,
}
use kazutb_siem.Hunt.Compile.{
  arguments, compile_predicate, sql_operator, compile_comparison, comparison, Argument,
}
use kazutb_siem.Hunt.Request.{HuntPredicate}

-- It compiled, and n arguments more than the first m are enough for it.
abbrev pub CompilesWithin {ℓ} : {A : Type ℓ} → ℕ → ℕ → Result (A × List Argument) → Type 0
CompilesWithin m n (ok (sql, args)) = m + length args ≤ n
CompilesWithin m n (err e) = ⊥

pub CompilesWithin-bind {ℓ κ} :
    {A : Type ℓ} {B : Type κ} (m n k : ℕ) (r : Result (A × List Argument))
    (f : A × List Argument → Result (B × List Argument))
    → CompilesWithin m n r
    → ((a : A) (args : List Argument) → m + length args ≤ n → CompilesWithin m k (f (a, args)))
    → CompilesWithin m k (r >>= f)
CompilesWithin-bind m n k (ok (a, args)) f h g = g a args h
CompilesWithin-bind m n k (err e) f h g = elim h [ ]

-- The comparators with one value.
abbrev IsPlain : String → Type 0
IsPlain comparator =
    ((comparator == "exists" || comparator == "not_exists") ≡ false)
    × ((comparator == "in") ≡ false)

folded_lem :
    (column comparator : String)
    → is_allowed string_kind comparator ≡ true
    → IsPlain comparator
    → (sql : String) × (comparison string_kind column comparator ≡ ok sql)
unfolding comparison
folded_lem column comparator allowed plain = elim (Bool-cases (comparator == "eq")) [
  | inl e ↦ ("lowerUTF8(" <> column <> ") = lowerUTF8(?)", rw e refl)
  | inr e ↦ elim (Bool-cases (comparator == "neq")) [
    | inl f ↦ ("lowerUTF8(" <> column <> ") != lowerUTF8(?)", rw (e, f) refl)
    | inr f ↦ elim (Bool-cases (comparator == "contains")) [
      | inl g ↦ ("positionCaseInsensitiveUTF8(" <> column <> ", ?) > 0", rw (e, f, g) refl)
      | inr g ↦ elim (Bool-cases (comparator == "starts_with")) [
        | inl k ↦ ("startsWith(lowerUTF8(" <> column <> "), lowerUTF8(?))", rw (e, f, g, k) refl)
        | inr k ↦ (
          "endsWith(lowerUTF8(" <> column <> "), lowerUTF8(?))",
          rw (e, f, g, k, last_comparator e f g k) refl,
        )
      ]
    ]
  ]
]
  where
    last_comparator :
        (comparator == "eq") ≡ false
        → (comparator == "neq") ≡ false
        → (comparator == "contains") ≡ false
        → (comparator == "starts_with") ≡ false
        → (comparator == "ends_with") ≡ true
    last_comparator e f g k = ground (arith, allowed, plain.0, plain.1, e, f, g, k)

comparison_lem :
    (kind : Kind) (column comparator : String)
    → is_allowed kind comparator ≡ true
    → IsPlain comparator
    → (sql : String) × (comparison kind column comparator ≡ ok sql)
unfolding comparison
comparison_lem number_kind column comparator allowed plain =
    (column <> " " <> sql_operator comparator <> " ?", refl)
comparison_lem string_kind column comparator allowed plain =
    folded_lem column comparator allowed plain
comparison_lem text_kind column comparator allowed plain =
    folded_lem column comparator allowed plain

or_of_false : (a b : Bool) → a ≡ false → b ≡ false → (a || b) ≡ false
or_of_false a b x y = ground (arith, x, y)

true_of_not : (b : Bool) → not b ≡ false → b ≡ true
true_of_not b h = ground (arith, h)

-- The comparator `in` of a valid predicate has few values.
few_values :
    (kind : Kind) (values : List String) (other : Result (Unit {0})) (comparator : String)
    → (comparator == "in") ≡ true
    → (if comparator == "in"
        then if eqb (length values) 0 || ltb 100 (length values)
          then err (wrap "in requires between 1 and 100 values" invalid_query)
          else validate_values kind values
        else other)
      ≡ ok tt
    → length (arguments kind values) ≤ 100
few_values kind values other comparator h e =
    let (few, _) =
      guard_inv (eqb (length values) 0 || ltb 100 (length values)) _ (validate_values kind values)
        (then_of (comparator == "in") _ other h e) in
    ground (arith, few, length-arguments kind values)

compile_comparison-CompilesWithin :
    (definition : FieldDefinition) (comparator : String) (predicate : HuntPredicate)
    → validate_comparison definition comparator predicate ≡ ok tt
    → CompilesWithin 0 100 (compile_comparison definition comparator predicate)
unfolding compile_comparison validate_comparison
compile_comparison-CompilesWithin definition comparator predicate e =
    let (allowed, e₁) = guard_inv (not (is_allowed definition.kind comparator)) _ _ e in
    elim (Bool-cases (comparator == "exists")) [
      | inl x ↦ rw x (omega arith)
      | inr x ↦ elim (Bool-cases (comparator == "not_exists")) [
        | inl y ↦ rw (x, y) (omega arith)
        | inr y ↦
            let plain = or_of_false (comparator == "exists") (comparator == "not_exists") x y in
            elim (Bool-cases (comparator == "in")) [
              | inl z ↦
                  rw (x, y, z)
                    (omega (
                      arith,
                      few_values definition.kind predicate.values
                          (validate_value definition.kind predicate.value) comparator z
                          (else_of (comparator == "exists" || comparator == "not_exists") _ _ plain
                            e₁),
                    ))
              | inr z ↦
                  let (sql, k) =
                    comparison_lem definition.kind definition.column comparator
                      (true_of_not (is_allowed definition.kind comparator) allowed) (plain, z) in
                  rw (x, y, z, k)
                    (omega (arith, length-arguments definition.kind (predicate.value ∷ [])))
            ]
      ]
    ]

pub compile_predicate-CompilesWithin :
    (predicate : HuntPredicate)
    → validate_predicate predicate ≡ ok tt
    → CompilesWithin 0 100 (compile_predicate predicate)
unfolding compile_predicate validate_predicate
compile_predicate-CompilesWithin predicate e =
    let (definition, resolved, valid) =
      bind_inv (resolve_field predicate.field)
        (λ d. validate_comparison d (comparator_of predicate) predicate) e in
    rw resolved
      (compile_comparison-CompilesWithin definition (comparator_of predicate) predicate valid)

pub CompilesWithin-shift {ℓ} :
    {A : Type ℓ} (m : ℕ) (r : Result (A × List Argument))
    → CompilesWithin 0 100 r
    → CompilesWithin (100 * m) (100 * suc m) r
CompilesWithin-shift m (ok (sql, args)) h = omega (arith, h)
CompilesWithin-shift m (err e) h = elim h [ ]
