-- ===== src/Hunt/Columns.antt =====
-- The question marks of texts and of the columns of fields.
use kazutb_siem.Base.{
  ℕ, ◌+◌, String, ◌≡◌, refl, subst, ◌⊎◌, inl, inr, true, some, List, [], ◌∷◌, arith, ◌==◌,
  Bool-cases, Option-cases, length, All,
}
use kazutb_siem.Base.Text.{◌<>◌, joined}
use kazutb_siem.Core.{Result-cases, ok, Holds}
use kazutb_siem.Hunt.Fields.{
  field_table, field_of, is_metadata_field, metadata_column, resolve_name, FieldDefinition,
  string_kind,
}
use kazutb_siem.Hunt.Compile.{placeholders, Argument}
use kazutb_siem.Hunt.Marks.{
  occurrences, occurrences_append, occurrences_nil, occurrences_in, occurrences-is_metadata_field,
}

-- The number of question marks.
abbrev pub marks : String → ℕ
marks s = occurrences b'?' s

pub occurrences_around :
    (c : ℕ) (before s after : String)
    → occurrences c (before <> s <> after)
      ≡ occurrences c before + occurrences c s + occurrences c after
occurrences_around c before s after =
    omega (arith, occurrences_append c before (s <> after), occurrences_append c s after)

-- A column without marks between two texts.
pub marks_around :
    (n : ℕ) (before column after : String)
    → marks column ≡ 0
    → marks before + marks after ≡ n
    → marks (before <> column <> after) ≡ n
marks_around n before column after e h =
    omega (arith, e, h, occurrences_around b'?' before column after)

pub occurrences-joined :
    (c : ℕ) (separator : String) (parts : List String)
    → occurrences c separator ≡ 0
    → occurrences c (joined separator parts) ≡ occurrences_in c parts
unfolding joined occurrences_in
occurrences-joined c separator [] h = occurrences_nil c
occurrences-joined c separator (s ∷ []) h = omega arith
occurrences-joined c separator (s ∷ t ∷ rest) h = omega (
  arith,
  h,
  occurrences_around c s separator (joined separator (t ∷ rest)),
  occurrences-joined c separator (t ∷ rest) h,
)

pub occurrences_in-placeholders :
    (c : ℕ) (mark : String) (args : List Argument)
    → occurrences c mark ≡ 1
    → occurrences_in c (placeholders mark args) ≡ length args
unfolding occurrences_in placeholders
occurrences_in-placeholders c mark [] h = refl
occurrences_in-placeholders c mark (a ∷ rest) h =
    omega (arith, h, occurrences_in-placeholders c mark rest h)

-- What holds of every definition of a table holds of the one that is found.
field_of-All :
    (P : FieldDefinition → Type 0) (name : String) (table : List (String × FieldDefinition))
    (definition : FieldDefinition)
    → All (λ entry. P entry.1) table
    → field_of name table ≡ some definition
    → P definition
unfolding field_of
field_of-All P name [] definition h e = absurd (ground (arith, e))
field_of-All P name ((n, f) ∷ rest) definition h e = elim (Bool-cases (n == name)) [
  | inl found ↦ subst P (ground (arith, found, e)) h.0
  | inr other ↦ field_of-All P name rest definition h.1 (ground (arith, other, e))
]

marks_table : All (λ (entry : String × FieldDefinition). marks entry.1.column ≡ 0) field_table
unfolding occurrences
marks_table = (
  refl,
  (
    refl,
    (
      refl,
      (
        refl,
        (
          refl,
          (
            refl,
            (
              refl,
              (
                refl,
                (
                  refl,
                  (
                    refl,
                    (
                      refl,
                      (refl, (refl, (refl, (refl, (refl, (refl, (refl, (refl, (refl, tt))))))))),
                    ),
                  ),
                ),
              ),
            ),
          ),
        ),
      ),
    ),
  ),
)

-- The definition is one of the table, or the column of a metadata field of this name.
pub resolve_name_lem :
    (name : String) (definition : FieldDefinition)
    → resolve_name name ≡ ok definition
    → (field_of name field_table ≡ some definition)
      ⊎ ((definition ≡ record { column = metadata_column name; kind = string_kind })
          × (is_metadata_field name ≡ true))
unfolding resolve_name
resolve_name_lem name definition e = elim (Option-cases (field_of name field_table)) [
  | inl missing ↦ elim (Bool-cases (is_metadata_field name)) [
    | inl metadata ↦ inr (ground (arith, missing, metadata, e), metadata)
    | inr other ↦ absurd (ground (arith, missing, other, e))
  ]
  | inr (d, found) ↦ inl (ground (arith, found, e))
]

pub marks-resolve_name :
    (name : String) → Holds (λ definition. marks definition.column ≡ 0) (resolve_name name)
unfolding occurrences
marks-resolve_name name = elim (Result-cases (resolve_name name)) [
  | inl (failure, e) ↦ rw e tt
  | inr (definition, e) ↦ rw e (elim (resolve_name_lem name definition e) [
    | inl found ↦
        field_of-All (λ d. marks d.column ≡ 0) name field_table definition marks_table found
    | inr (shape, metadata) ↦ rw shape (
        marks_around 0 "JSON_VALUE(payload, '$." name "')"
          (occurrences-is_metadata_field b'?' name refl metadata) refl)
  ])
]
