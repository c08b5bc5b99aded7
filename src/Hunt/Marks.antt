-- ===== src/Hunt/Marks.antt =====
-- How often a character stands in a text, and in the column of a field.
use Prim.Native.Char.{Char, code}
use text.Mathlib.TextLemmas.{nil-append, cons-append}
use kazutb_siem.Base.{
  sym, subst, eq_iff, Bool-cases, inl, inr, ℕ, ◌+◌, String, ◌≡◌, refl, inl, inr, true, false, ◌&&◌,
  ◌||◌, List, [], ◌∷◌, arith, leb, eqb, if◌then◌else◌, Bool-cases,
}
use kazutb_siem.Base.Text.{◌<>◌, split_first}
use kazutb_siem.Hunt.Fields.{are_segments, is_metadata_field, are_segment_chars}

unfoldable pub occurrences : ℕ → String → ℕ
occurrences c String.[] = 0
occurrences c (String.◌∷◌ d s) = (if eqb (code d) c then 1 else 0) + occurrences c s

pub occurrences_append :
    (c : ℕ) (s t : String) → occurrences c (s <> t) ≡ occurrences c s + occurrences c t
unfolding occurrences
occurrences_append c String.[] t = rw (nil-append t) (omega arith)
occurrences_append c (String.◌∷◌ d s) t =
    rw (cons-append d s t) (omega (arith, occurrences_append c s t))

pub occurrences_nil : (c : ℕ) → occurrences c "" ≡ 0
unfolding occurrences
occurrences_nil c = refl

-- In all the texts of a list.
unfoldable pub occurrences_in : ℕ → List String → ℕ
occurrences_in c [] = 0
occurrences_in c (s ∷ rest) = occurrences c s + occurrences_in c rest

occurrences-split_first :
    (c : ℕ) (separator : Char) (s : String)
    → eqb (code separator) c ≡ false
    → occurrences c s
      ≡ occurrences c (split_first separator s).0 + occurrences_in c (split_first separator s).1
unfolding occurrences occurrences_in split_first
occurrences-split_first c separator String.[] h = refl
occurrences-split_first c separator (String.◌∷◌ d s) h =
    elim (Bool-cases (eqb (code d) (code separator))) [
      | inl e ↦ rw e (ground (arith, h, e, occurrences-split_first c separator s h))
      | inr e ↦ rw e (omega (arith, occurrences-split_first c separator s h))
    ]

-- The character may not stand in the name of a metadata field.
abbrev pub IsForeign : ℕ → Type 0
IsForeign c =
    ((leb b'A' c && leb c b'Z')
      || (leb b'a' c && leb c b'z')
      || (leb b'0' c && leb c b'9')
      || eqb c b'_'
      || eqb c b'-'
      || eqb c b'.')
    ≡ false

occurrences-are_segment_chars :
    (c : ℕ) (s : String) → IsForeign c → are_segment_chars s ≡ true → occurrences c s ≡ 0
unfolding occurrences are_segment_chars
occurrences-are_segment_chars c String.[] f h = refl
occurrences-are_segment_chars c (String.◌∷◌ d s) f h = elim (Bool-cases (are_segment_chars s)) [
  | inl rest ↦ ground (arith, occurrences-are_segment_chars c s f rest, f, h)
  | inr rest ↦ absurd (ground (arith, rest, h))
]

occurrences-are_segments :
    (c : ℕ) (segments : List String)
    → IsForeign c
    → are_segments segments ≡ true
    → occurrences_in c segments ≡ 0
unfolding occurrences_in are_segments
occurrences-are_segments c [] f h = refl
occurrences-are_segments c (s ∷ rest) f h = elim (Bool-cases (are_segment_chars s)) [
  | inl plain ↦ elim (Bool-cases (are_segments rest)) [
    | inl others ↦
        omega (
          arith,
          occurrences-are_segment_chars c s f plain,
          occurrences-are_segments c rest f others,
        )
    | inr other ↦ absurd (ground (arith, other, h))
  ]
  | inr strange ↦ absurd (ground (arith, strange, h))
]

-- No foreign character stands in the name of a metadata field.
pub occurrences-is_metadata_field :
    (c : ℕ) (name : String) → IsForeign c → is_metadata_field name ≡ true → occurrences c name ≡ 0
unfolding is_metadata_field
occurrences-is_metadata_field c name f h = omega (
  arith,
  occurrences-split_first c "." name (ground (arith, f)),
  occurrences-are_segments c (split_first "." name).1 f (ground (arith, h)),
  subst (λ first. occurrences c first ≡ 0)
      (sym ((eq_iff (split_first "." name).0 "metadata").0 (ground (arith, h))))
      (occurrences-are_segment_chars c "metadata" f refl),
)
