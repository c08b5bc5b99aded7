-- ===== src/Hunt/Placeholders.antt =====
-- The placeholders of the SQL text are as many as its arguments.
use kazutb_siem.Base.{String, ◌≡◌, refl, inl, inr, List, [], ◌∷◌, arith, ◌==◌, Bool-cases, length}
use kazutb_siem.Base.Text.{◌<>◌, joined, trim_space, to_lower}
use kazutb_siem.Core.{Holds, Holds-bind, Result}
use kazutb_siem.Hunt.Fields.{
  resolve_field, Kind, number_kind, text_kind, FieldDefinition, string_kind,
}
use kazutb_siem.Hunt.Validate.{comparator_of}
use kazutb_siem.Hunt.Compile.{
  comparison, compile_comparison, compile_predicate, arguments, sql_operator, membership,
  placeholders, Argument,
}
use kazutb_siem.Hunt.Marks.{occurrences, occurrences_append}
use kazutb_siem.Hunt.Request.{HuntPredicate}
use kazutb_siem.Hunt.Columns.{
  marks, occurrences_around, marks_around, occurrences-joined, occurrences_in-placeholders,
  marks-resolve_name,
}

-- One mark for each argument.
abbrev pub IsMatched : String × List Argument → Type 0
IsMatched (sql, args) = marks sql ≡ length args

pub length-arguments :
    (kind : Kind) (values : List String) → length (arguments kind values) ≡ length values
unfolding arguments
length-arguments kind [] = refl
length-arguments kind (v ∷ rest) = omega (arith, length-arguments kind rest)

marks_folded :
    (column : String) (args : List Argument)
    → marks column ≡ 0
    → marks
        ("lowerUTF8(" <> column <> ") IN (" <> joined "," (placeholders "lowerUTF8(?)" args) <> ")")
      ≡ length args
unfolding occurrences
marks_folded column args h =
    let list = joined "," (placeholders "lowerUTF8(?)" args) in
    omega (
      arith,
      h,
      occurrences_around b'?' "lowerUTF8(" column (") IN (" <> list <> ")"),
      occurrences_around b'?' ") IN (" list ")",
      occurrences-joined b'?' "," (placeholders "lowerUTF8(?)" args) refl,
      occurrences_in-placeholders b'?' "lowerUTF8(?)" args refl,
    )

membership-IsMatched :
    (kind : Kind) (column : String) (args : List Argument)
    → marks column ≡ 0
    → IsMatched (membership kind column args, args)
unfolding membership occurrences
membership-IsMatched number_kind column args h = omega (
  arith,
  h,
  occurrences_append b'?' column (" IN (" <> joined "," (placeholders "?" args) <> ")"),
  occurrences_around b'?' " IN (" (joined "," (placeholders "?" args)) ")",
  occurrences-joined b'?' "," (placeholders "?" args) refl,
  occurrences_in-placeholders b'?' "?" args refl,
)
membership-IsMatched string_kind column args h = marks_folded column args h
membership-IsMatched text_kind column args h = marks_folded column args h

marks-sql_operator : (comparator : String) → marks (sql_operator comparator) ≡ 0
unfolding occurrences sql_operator
marks-sql_operator comparator = elim (Bool-cases (comparator == "eq")) [
  | inl e ↦ rw e (refl)
  | inr e ↦ rw e (elim (Bool-cases (comparator == "neq")) [
    | inl e ↦ rw e (refl)
    | inr e ↦ rw e (elim (Bool-cases (comparator == "gt")) [
      | inl e ↦ rw e (refl)
      | inr e ↦ rw e (elim (Bool-cases (comparator == "gte")) [
        | inl e ↦ rw e (refl)
        | inr e ↦ rw e (elim (Bool-cases (comparator == "lt")) [
          | inl e ↦ rw e (refl)
          | inr e ↦ rw e (elim (Bool-cases (comparator == "lte")) [
            | inl e ↦ rw e (refl)
            | inr e ↦ rw e (refl)
          ])
        ])
      ])
    ])
  ])
]

-- A text with one mark.
abbrev One : Result String → Type 0
One r = Holds (λ sql. marks sql ≡ 1) r

One-folded :
    (column comparator : String) → marks column ≡ 0 → One (comparison string_kind column comparator)
unfolding occurrences comparison
One-folded column comparator h = elim (Bool-cases (comparator == "eq")) [
  | inl e ↦ rw e (marks_around 1 "lowerUTF8(" column ") = lowerUTF8(?)" h refl)
  | inr e ↦ rw e (elim (Bool-cases (comparator == "neq")) [
    | inl e ↦ rw e (marks_around 1 "lowerUTF8(" column ") != lowerUTF8(?)" h refl)
    | inr e ↦ rw e (elim (Bool-cases (comparator == "contains")) [
      | inl e ↦ rw e (marks_around 1 "positionCaseInsensitiveUTF8(" column ", ?) > 0" h refl)
      | inr e ↦ rw e (elim (Bool-cases (comparator == "starts_with")) [
        | inl e ↦ rw e (marks_around 1 "startsWith(lowerUTF8(" column "), lowerUTF8(?))" h refl)
        | inr e ↦ rw e (elim (Bool-cases (comparator == "ends_with")) [
          | inl e ↦ rw e (marks_around 1 "endsWith(lowerUTF8(" column "), lowerUTF8(?))" h refl)
          | inr e ↦ rw e (tt)
        ])
      ])
    ])
  ])
]

One-comparison :
    (kind : Kind) (column comparator : String)
    → marks column ≡ 0
    → One (comparison kind column comparator)
unfolding occurrences comparison
One-comparison number_kind column comparator h = omega (
  arith,
  h,
  marks-sql_operator comparator,
  occurrences_around b'?' column " " (sql_operator comparator <> " ?"),
  occurrences_append b'?' (sql_operator comparator) " ?",
)
One-comparison string_kind column comparator h = One-folded column comparator h
One-comparison text_kind column comparator h = One-folded column comparator h

compile_comparison-IsMatched :
    (definition : FieldDefinition) (comparator : String) (predicate : HuntPredicate)
    → marks definition.column ≡ 0
    → Holds IsMatched (compile_comparison definition comparator predicate)
unfolding occurrences compile_comparison arguments
compile_comparison-IsMatched definition comparator predicate h =
    elim (Bool-cases (comparator == "exists")) [
      | inl e ↦ rw e (omega (arith, h, occurrences_append b'?' definition.column " != ''"))
      | inr e ↦ rw e (elim (Bool-cases (comparator == "not_exists")) [
        | inl e ↦ rw e (omega (arith, h, occurrences_append b'?' definition.column " = ''"))
        | inr e ↦ rw e (elim (Bool-cases (comparator == "in")) [
          | inl e ↦ rw e (
              membership-IsMatched definition.kind definition.column
                (arguments definition.kind predicate.values) h)
          | inr e ↦ rw e (
              Holds-bind (λ sql. marks sql ≡ 1) IsMatched
                (comparison definition.kind definition.column comparator) _
                (One-comparison definition.kind definition.column comparator h) (λ sql one. one))
        ])
      ])
    ]

pub compile_predicate-IsMatched :
    (predicate : HuntPredicate) → Holds IsMatched (compile_predicate predicate)
unfolding compile_predicate resolve_field
compile_predicate-IsMatched predicate =
    Holds-bind (λ definition. marks definition.column ≡ 0) IsMatched (resolve_field predicate.field)
      _ (marks-resolve_name (to_lower (trim_space predicate.field)))
      (λ definition h.
        compile_comparison-IsMatched definition (comparator_of predicate) predicate h)
