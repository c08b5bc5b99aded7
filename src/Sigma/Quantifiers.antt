-- ===== src/Sigma/Quantifiers.antt =====
-- expandQuantifiers: `1 of`, `all of` in a condition, by the regular expression
-- (?i)\b(1|all)\s+of\s+(them|[a-zA-Z0-9_.*-]+) and path.Match on the selections' names.
use Prim.Native.Char.{code}
use kazutb_siem.Base.{
  ℕ, zero, suc, ◌+◌, ◌-◌, String, ◌≡◌, refl, Bool, true, false, ◌&&◌, ◌||◌, Option, none, some,
  List, [], ◌∷◌, ◌==◌, leb, eqb, if◌then◌else◌, length, keep,
}
use kazutb_siem.Base.Text.{◌<>◌, to_lower, equal_fold, has_prefix, joined, text_length}
use kazutb_siem.Core.{Result, invalid_rule, wrap, ok, err, ◌>>=◌}
use kazutb_siem.Sigma.Glob.{path_match}

-- [0-9A-Za-z_], at which \b stops
unfoldable pub is_word : ℕ → Bool
is_word c =
    (leb b'0' c && leb c b'9')
    || (leb b'A' c && leb c b'Z')
    || (leb b'a' c && leb c b'z')
    || eqb c b'_'

-- [a-zA-Z0-9_.*-], where case is ignored; of the other letters U+017F and U+212A fold to these.
unfoldable pub is_name : ℕ → Bool
unfolding is_word
is_name c = is_word c || eqb c b'.' || eqb c b'*' || eqb c b'-' || eqb c 0x17f || eqb c 0x212a

-- \s
unfoldable pub is_blank_char : ℕ → Bool
is_blank_char c = eqb c 9 || eqb c 10 || eqb c 12 || eqb c 13 || eqb c 32

unfoldable pub skip_blanks : String → String
unfolding is_blank_char
skip_blanks String.[] = ""
skip_blanks (String.◌∷◌ c s) =
    let rest = skip_blanks s in if is_blank_char (code c) then rest else String.◌∷◌ c s

-- \s+
unfoldable pub blanks : String → Option String
unfolding is_blank_char skip_blanks
blanks String.[] = none
blanks (String.◌∷◌ c s) = if is_blank_char (code c) then some (skip_blanks s) else none

-- The text below as many characters as the word has.
unfoldable pub below_length : String → String → String
below_length String.[] t = t
below_length (String.◌∷◌ d w) String.[] = ""
below_length (String.◌∷◌ d w) (String.◌∷◌ c t) = below_length w t

-- The text after a word in lower case, with which it begins in any case.
unfoldable pub after_word : String → String → Option String
unfolding to_lower has_prefix below_length
after_word word s = if has_prefix (to_lower s) word then some (below_length word s) else none

unfoldable pub name_run : String → String
unfolding is_name
name_run String.[] = ""
name_run (String.◌∷◌ c s) =
    let rest = name_run s in if is_name (code c) then String.◌∷◌ c rest else ""

-- What a match binds: whether it quantifies over all, the name, and how long the match is.
pub record Quantifier : Type 0 where
  pub every : Bool
  pub name : String
  pub size : ℕ

-- \s+of\s+(them|…), at `rest`, for a match that begins with `whole`.
unfoldable pub quantifier_tail : Bool → String → String → Option Quantifier
unfolding blanks after_word name_run text_length
quantifier_tail every whole rest = elim (blanks rest) [
  | none ↦ none
  | some at_of ↦ elim (after_word "of" at_of) [
    | none ↦ none
    | some after_of ↦ elim (blanks after_of) [
      | none ↦ none
      | some target ↦
          let consumed = text_length whole - text_length target in
          elim (after_word "them" target) [
            | some _ ↦ some (record { every = every; name = "them"; size = consumed + 4 })
            | none ↦
                if name_run target == ""
                then none
                else some (record {
                  every = every;
                  name = name_run target;
                  size = consumed + text_length (name_run target);
                })
          ]
    ]
  ]
]

-- A match at the beginning of the text; `previous` is the character before it.
unfoldable pub quantifier_at : ℕ → String → Option Quantifier
unfolding is_word after_word quantifier_tail
quantifier_at previous s = if is_word previous then none else elim (after_word "1" s) [
  | some rest ↦ quantifier_tail false s rest
  | none ↦ elim (after_word "all" s) [ some rest ↦ quantifier_tail true s rest | none ↦ none ]
]

-- The names that the pattern selects.
unfoldable pub selected : List String → String → List String
unfolding equal_fold keep path_match to_lower
selected names pattern =
    if equal_fold pattern "them"
    then names
    else keep (λ name. path_match (to_lower pattern) (to_lower name)) names

-- The function that ReplaceAllStringFunc is given.
unfoldable pub replacement : List String → Quantifier → Result String
unfolding selected joined
replacement names q =
    let chosen = selected names q.name in
    if eqb (length chosen) 0
    then err (wrap "quantifier matches no selections" invalid_rule)
    else ok ("(" <> joined (if q.every then " and " else " or ") chosen <> ")")

-- ReplaceAllStringFunc: `skip` characters of a match are still to be passed over.
unfoldable pub expand : List String → ℕ → ℕ → String → Result String
unfolding quantifier_at replacement
expand names previous skip String.[] = ok ""
expand names previous (suc skip) (String.◌∷◌ c s) = expand names (code c) skip s
expand names previous zero (String.◌∷◌ c s) = elim (quantifier_at previous (String.◌∷◌ c s)) [
  | none ↦ expand names (code c) 0 s >>= λ rest. ok (String.◌∷◌ c rest)
  | some q ↦ replacement names q >>= λ group.
      expand names (code c) (q.size - 1) s >>= λ rest. ok (group <> rest)
]

-- `names` are in order.
unfoldable pub expand_quantifiers : List String → String → Result String
unfolding expand
expand_quantifiers names condition = expand names 32 0 condition

expand_quantifiers_lem :
    expand_quantifiers ("sel_a" ∷ "sel_b" ∷ []) "ALL of sel_* and not 1 of Them"
    ≡ ok "(sel_a and sel_b) and not (sel_a or sel_b)"
unfolding expand_quantifiers after_word
expand_quantifiers_lem = refl
