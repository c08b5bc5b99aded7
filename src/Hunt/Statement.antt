-- ===== src/Hunt/Statement.antt =====
-- What a compiled expression may hold of the user's texts.
use kazutb_siem.Base.{
  ℕ, String, ◌≡◌, refl, ap, ◌⊎◌, inl, inr, Option, none, some, List, ◌∷◌, ◌++◌, arith, length,
  length-append,
}
use kazutb_siem.Base.Text.{◌<>◌, trim_space, to_lower}
use kazutb_siem.Core.{Holds, Holds-bind, ok}
use kazutb_siem.Hunt.Request.{
  expression, HuntPredicate, HuntExpression, Expressions, Negated, no_more, child, no_expression,
  pointer,
}
use kazutb_siem.Hunt.Fields.{field_table, field_of, metadata_column, resolve_field, FieldDefinition}
use kazutb_siem.Hunt.Compile.{
  compile_leaf, together, negation_of, compile_node, compile_children, compile_single, Argument,
}
use kazutb_siem.Hunt.Marks.{occurrences, occurrences_in, IsForeign, occurrences-is_metadata_field}
use kazutb_siem.Hunt.Columns.{occurrences_around, occurrences-joined, resolve_name_lem}
use kazutb_siem.Hunt.Placeholders.{IsMatched, compile_predicate-IsMatched}

-- One mark in the parts for each argument.
abbrev AreMatched : List String × List Argument → Type 0
AreMatched (parts, args) = occurrences_in b'?' parts ≡ length args

compile_leaf-IsMatched :
    (predicate : Option HuntPredicate) → Holds IsMatched (compile_leaf predicate)
unfolding compile_leaf
compile_leaf-IsMatched none = tt
compile_leaf-IsMatched (some predicate) = compile_predicate-IsMatched predicate

together-IsMatched :
    (operator : String) (parts : List String) (args : List Argument)
    → occurrences b'?' operator ≡ 0
    → AreMatched (parts, args)
    → Holds IsMatched (together operator (parts, args))
together-IsMatched operator parts args plain h =
    omega (arith, h, occurrences-joined b'?' operator parts plain)

part-AreMatched :
    (part : String) (child_args : List Argument) (parts : List String) (args : List Argument)
    → IsMatched (part, child_args)
    → AreMatched (parts, args)
    → AreMatched (("(" <> part <> ")") ∷ parts, child_args ++ args)
unfolding occurrences occurrences_in
part-AreMatched part child_args parts args h k =
    omega (arith, h, k, occurrences_around b'?' "(" part ")", length-append child_args args)

negation_of-IsMatched :
    (part : String) (args : List Argument)
    → IsMatched (part, args)
    → Holds IsMatched (negation_of (part, args))
unfolding occurrences
negation_of-IsMatched part args h = omega (arith, h, occurrences_around b'?' "NOT (" part ")")

mutual
  unfolding compile_node occurrences occurrences_in

  node_lem : (e : HuntExpression) → Holds IsMatched (compile_node e)
  node_lem (expression all (child e es) negated predicate) =
      Holds-bind AreMatched IsMatched (compile_children (child e es)) (together " OR ")
        (compile_children-AreMatched (child e es))
        (λ (parts, args) h. together-IsMatched " OR " parts args refl h)
  node_lem (expression (child e es) no_more negated predicate) =
      Holds-bind AreMatched IsMatched (compile_children (child e es)) (together " AND ")
        (compile_children-AreMatched (child e es))
        (λ (parts, args) h. together-IsMatched " AND " parts args refl h)
  node_lem (expression no_more no_more negated predicate) =
      compile_single-IsMatched negated predicate

  compile_children-AreMatched : (es : Expressions) → Holds AreMatched (compile_children es)
  compile_children-AreMatched no_more = refl
  compile_children-AreMatched (child e es) =
      Holds-bind IsMatched AreMatched (compile_node e) _ (node_lem e) (λ (part, child_args) h.
        Holds-bind AreMatched AreMatched (compile_children es) _ (compile_children-AreMatched es)
          (λ (parts, args) k. part-AreMatched part child_args parts args h k))

  compile_single-IsMatched :
      (negated : Negated) (predicate : Option HuntPredicate)
      → Holds IsMatched (compile_single negated predicate)
  compile_single-IsMatched (pointer e) predicate =
      Holds-bind IsMatched IsMatched (compile_node e) negation_of (node_lem e)
        (λ (part, args) h. negation_of-IsMatched part args h)
  compile_single-IsMatched no_expression predicate = compile_leaf-IsMatched predicate

-- The SQL text of an expression that compiles has one placeholder for each of its arguments.
pub compile_node-IsMatched : (e : HuntExpression) → Holds IsMatched (compile_node e)
compile_node-IsMatched e = node_lem e

-- A field that resolves is a column of the table, or that of a metadata path that has only letters,
-- digits, `_`, `-` and `.` in it: any other character c, so a quote, stands in it 0 times.
pub resolve_field-columns :
    (name : String) (definition : FieldDefinition)
    → resolve_field name ≡ ok definition
    → (field_of (to_lower (trim_space name)) field_table ≡ some definition)
      ⊎ ((definition.column ≡ metadata_column (to_lower (trim_space name)))
          × ((c : ℕ) → IsForeign c → occurrences c (to_lower (trim_space name)) ≡ 0))
unfolding resolve_field
resolve_field-columns name definition e =
    elim (resolve_name_lem (to_lower (trim_space name)) definition e) [
      | inl found ↦ inl found
      | inr (shape, metadata) ↦ inr (
        ap (λ d. d.column) shape,
        λ c f. occurrences-is_metadata_field c (to_lower (trim_space name)) f metadata,
      )
    ]
