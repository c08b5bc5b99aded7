-- ===== src/Hunt/Masking.antt =====
-- The SQL text does not depend on the values that are searched for.
use kazutb_siem.Base.{
  ◌∙◌, subst, String, ◌≡◌, refl, ap, inl, inr, Option, none, some, List, [], ◌∷◌, arith, ◌==◌,
  Bool-cases,
}
use kazutb_siem.Core.{ok_inv, ◌>>=◌, Result, ok, err}
use kazutb_siem.Hunt.Request.{
  expression, HuntPredicate, HuntExpression, Expressions, Negated, no_more, child, no_expression,
  pointer,
}
use kazutb_siem.Hunt.Fields.{
  resolve_field, Kind, FieldDefinition, string_kind, number_kind, text_kind,
}
use kazutb_siem.Hunt.Validate.{comparator_of}
use kazutb_siem.Hunt.Compile.{
  Compiled, together, negation_of, with_siblings, compile_node, compile_children, compile_single,
  Argument, arguments, placeholders, membership, comparison, compile_comparison, compile_predicate,
  compile_leaf,
}

-- The predicate and the expression with empty texts as their values.
abbrev pub mask_values : List String → List String
mask_values [] = []
mask_values (value ∷ rest) = "" ∷ mask_values rest

abbrev pub mask_predicate : HuntPredicate → HuntPredicate
mask_predicate predicate = record predicate { value = ""; values = mask_values predicate.values }

abbrev mask_option : Option HuntPredicate → Option HuntPredicate
mask_option none = none
mask_option (some predicate) = some (mask_predicate predicate)

unfoldable mutual
  pub mask : HuntExpression → HuntExpression
  mask (expression all any negated predicate) =
      expression (mask_all all) (mask_all any) (mask_pointer negated) (mask_option predicate)

  pub mask_all : Expressions → Expressions
  mask_all no_more = no_more
  mask_all (child e es) = child (mask e) (mask_all es)

  pub mask_pointer : Negated → Negated
  mask_pointer no_expression = no_expression
  mask_pointer (pointer e) = pointer (mask e)

-- The text without the arguments.
abbrev pub text_of {ℓ κ} : {A : Type ℓ} {B : Type κ} → Result (A × B) → Result A
text_of (ok (a, b)) = ok a
text_of (err e) = err e

placeholders-mask_values :
    (mark : String) (kind : Kind) (values : List String)
    → placeholders mark (arguments kind (mask_values values))
      ≡ placeholders mark (arguments kind values)
unfolding placeholders arguments
placeholders-mask_values mark kind [] = refl
placeholders-mask_values mark kind (v ∷ rest) = rw (placeholders-mask_values mark kind rest) refl

membership-mask_values :
    (kind : Kind) (column : String) (values : List String)
    → membership kind column (arguments kind (mask_values values))
      ≡ membership kind column (arguments kind values)
unfolding membership
membership-mask_values number_kind column values =
    rw (placeholders-mask_values "?" number_kind values) refl
membership-mask_values string_kind column values =
    rw (placeholders-mask_values "lowerUTF8(?)" string_kind values) refl
membership-mask_values text_kind column values =
    rw (placeholders-mask_values "lowerUTF8(?)" text_kind values) refl

text_of-bind :
    {A B C : Type 0} (r : Result A) (f g : A → Result (B × C))
    → ((a : A) → text_of (f a) ≡ text_of (g a))
    → text_of (r >>= f) ≡ text_of (r >>= g)
text_of-bind (ok a) f g h = h a
text_of-bind (err e) f g h = refl

compile_comparison-mask_predicate :
    (definition : FieldDefinition) (comparator : String) (predicate : HuntPredicate)
    → text_of (compile_comparison definition comparator (mask_predicate predicate))
      ≡ text_of (compile_comparison definition comparator predicate)
unfolding compile_comparison
compile_comparison-mask_predicate definition comparator predicate =
    elim (Bool-cases (comparator == "exists")) [
      | inl e ↦ rw e refl
      | inr e ↦ rw e (elim (Bool-cases (comparator == "not_exists")) [
        | inl e ↦ rw e refl
        | inr e ↦ rw e (elim (Bool-cases (comparator == "in")) [
          | inl e ↦
              rw e
                (ap ok (membership-mask_values definition.kind definition.column predicate.values))
          | inr e ↦ rw e (
              text_of-bind (comparison definition.kind definition.column comparator) _ _
                (λ sql. refl))
        ])
      ])
    ]

compile_leaf-mask_option :
    (predicate : Option HuntPredicate)
    → text_of (compile_leaf (mask_option predicate)) ≡ text_of (compile_leaf predicate)
unfolding compile_leaf compile_predicate
compile_leaf-mask_option none = refl
compile_leaf-mask_option (some predicate) =
    text_of-bind (resolve_field predicate.field) _ _ (λ definition.
      compile_comparison-mask_predicate definition (comparator_of predicate) predicate)

-- The text of what follows depends only on the text of what it reads.
text_of-cong :
    {A B C D : Type 0} (r s : Result (A × B)) (f : A × B → Result (C × D))
    → ((a : A) (b c : B) → text_of (f (a, b)) ≡ text_of (f (a, c)))
    → text_of r ≡ text_of s
    → text_of (r >>= f) ≡ text_of (s >>= f)
text_of-cong (ok (a, b)) (ok (c, d)) f h e =
    subst (λ x. text_of (f (a, b)) ≡ text_of (f (x, d))) (ok_inv e) (h a b d)
text_of-cong (ok (a, b)) (err d) f h e = absurd (ground (arith, e))
text_of-cong (err b) (ok (c, d)) f h e = absurd (ground (arith, e))
text_of-cong (err b) (err d) f h e = ap err (ground (arith, e))

text_of-child :
    (r r' : Compiled) (s s' : Result (List String × List Argument))
    → text_of r ≡ text_of r'
    → text_of s ≡ text_of s'
    → text_of (r >>= with_siblings s) ≡ text_of (r' >>= with_siblings s')
text_of-child (ok (p, a)) (ok (q, b)) s s' h k =
    text_of-cong s s' (λ rest. with_siblings (ok rest) (p, a)) (λ parts c d. refl) k
    ∙ text_of-bind s' (λ rest. with_siblings (ok rest) (p, a))
        (λ rest. with_siblings (ok rest) (q, b))
        (λ (parts, args).
          ap (λ part. text_of (with_siblings (ok (parts, args)) (part, a))) (ok_inv h))
text_of-child (ok (p, a)) (err d) s s' h k = absurd (ground (arith, h))
text_of-child (err b) (ok (q, c)) s s' h k = absurd (ground (arith, h))
text_of-child (err b) (err d) s s' h k = ap err (ground (arith, h))

mutual
  unfolding compile_node mask

  node_mask_lem : (e : HuntExpression) → text_of (compile_node (mask e)) ≡ text_of (compile_node e)
  node_mask_lem (expression all (child e es) negated predicate) =
      text_of-cong (compile_children (mask_all (child e es))) (compile_children (child e es))
        (together " OR ") (λ parts b c. refl) (compile_children-mask_all (child e es))
  node_mask_lem (expression (child e es) no_more negated predicate) =
      text_of-cong (compile_children (mask_all (child e es))) (compile_children (child e es))
        (together " AND ") (λ parts b c. refl) (compile_children-mask_all (child e es))
  node_mask_lem (expression no_more no_more negated predicate) =
      compile_single-mask_pointer negated predicate

  compile_children-mask_all :
      (es : Expressions) → text_of (compile_children (mask_all es)) ≡ text_of (compile_children es)
  compile_children-mask_all no_more = refl
  compile_children-mask_all (child e es) =
      text_of-child (compile_node (mask e)) (compile_node e) (compile_children (mask_all es))
        (compile_children es) (node_mask_lem e) (compile_children-mask_all es)

  compile_single-mask_pointer :
      (negated : Negated) (predicate : Option HuntPredicate)
      → text_of (compile_single (mask_pointer negated) (mask_option predicate))
        ≡ text_of (compile_single negated predicate)
  compile_single-mask_pointer (pointer e) predicate =
      text_of-cong (compile_node (mask e)) (compile_node e) negation_of (λ part b c. refl)
        (node_mask_lem e)
  compile_single-mask_pointer no_expression predicate = compile_leaf-mask_option predicate

-- Whatever values are searched for, the SQL text is that of the expression with empty values.
pub compile_node-mask :
    (e : HuntExpression) → text_of (compile_node (mask e)) ≡ text_of (compile_node e)
compile_node-mask e = node_mask_lem e
