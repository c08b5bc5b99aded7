-- ===== src/Base/Text.antt =====
-- Go's package strings, over texts of Unicode characters: TrimSpace, ToUpper, ToLower, EqualFold,
-- Contains, HasPrefix, and the order of sort.Strings. Case is mapped for the letters of ASCII,
-- Latin-1 and Cyrillic (the Kazakh letters included); any other character is its own image.
use Prim.Native.Nat.{ℕ, ◌+◌, ◌-◌, ◌%◌, compare, Ordering}
use Prim.Native.Char.{Char, char, code}
use Prim.Native.String.{String}
use Prim.Native.String
use mathlib.Core.Path.{◌≡◌, refl}
use mathlib.Core.Bool.{Bool, true, false, ◌&&◌, ◌||◌, not}
use mathlib.Core.List.{List, [], ◌∷◌}
use text.Mathlib.Text.{◌==◌}
use kazutb_siem.Base.Tests.{if◌then◌else◌, leb, ltb, eqb}

-- The text s + t.
infixr 66 ◌<>◌
abbrev pub ◌<>◌ : String → String → String
s <> t = String.◌++◌ s t

-- unicode.IsSpace
unfoldable pub is_space : ℕ → Bool
is_space c =
    (leb 9 c && leb c 13)
    || eqb c 32
    || eqb c 0x85
    || eqb c 0xa0
    || eqb c 0x1680
    || (leb 0x2000 c && leb c 0x200a)
    || eqb c 0x2028
    || eqb c 0x2029
    || eqb c 0x202f
    || eqb c 0x205f
    || eqb c 0x3000

unfoldable pub trim_left : String → String
trim_left String.[] = String.[]
trim_left (String.◌∷◌ c s) =
    let rest = trim_left s in if is_space (code c) then rest else String.◌∷◌ c s

unfoldable pub trim_right : String → String
trim_right String.[] = String.[]
trim_right (String.◌∷◌ c s) =
    let rest = trim_right s in if is_space (code c) && rest == "" then "" else String.◌∷◌ c rest

unfoldable pub trim_space : String → String
unfolding trim_left trim_right is_space
trim_space s = trim_right (trim_left s)

-- strings.TrimSpace(s) == ""
abbrev pub is_blank : String → Bool
is_blank s = trim_space s == ""

-- Two letters of different case stand next to one another, the upper one at an even number.
abbrev is_paired : ℕ → Bool
is_paired c =
    (leb 0x460 c && leb c 0x481) || (leb 0x48a c && leb c 0x4bf) || (leb 0x4d0 c && leb c 0x52f)

upper_code : ℕ → ℕ
upper_code c =
    if leb b'a' c && leb c b'z'
    then c - 32
    else if leb 0xe0 c && leb c 0xfe && not (eqb c 0xf7)
    then c - 32
    else if leb 0x430 c && leb c 0x44f
    then c - 32
    else if leb 0x450 c && leb c 0x45f
    then c - 80
    else if is_paired c
    then c - c % 2
    else c

lower_code : ℕ → ℕ
lower_code c =
    if leb b'A' c && leb c b'Z'
    then c + 32
    else if leb 0xc0 c && leb c 0xde && not (eqb c 0xd7)
    then c + 32
    else if leb 0x410 c && leb c 0x42f
    then c + 32
    else if leb 0x400 c && leb c 0x40f
    then c + 80
    else if is_paired c
    then c + 1 - c % 2
    else c

-- The character with the number n, for n below the surrogates; c for any other.
char_at_code : (c : Char) (n : ℕ) (o : Ordering) → compare n 55296 ≡ o → Char
char_at_code c n Ordering.lt e = char n (rw e tt)
char_at_code c n _ e = c

on_codes : (ℕ → ℕ) → String → String
on_codes f String.[] = String.[]
on_codes f (String.◌∷◌ c s) =
    let n = f (code c) in String.◌∷◌ (char_at_code c n (compare n 55296) refl) (on_codes f s)

unfoldable pub to_upper : String → String
unfolding on_codes char_at_code upper_code
to_upper s = on_codes upper_code s

unfoldable pub to_lower : String → String
unfolding on_codes char_at_code lower_code
to_lower s = on_codes lower_code s

unfoldable pub equal_fold : String → String → Bool
unfolding to_lower
equal_fold s t = to_lower s == to_lower t

unfoldable pub has_prefix : String → String → Bool
has_prefix s String.[] = true
has_prefix String.[] (String.◌∷◌ d t) = false
has_prefix (String.◌∷◌ c s) (String.◌∷◌ d t) = eqb (code c) (code d) && has_prefix s t

unfoldable pub contains : String → String → Bool
unfolding has_prefix
contains String.[] t = t == ""
contains (String.◌∷◌ c s) t = has_prefix (String.◌∷◌ c s) t || contains s t

-- strings.Join(parts, separator)
unfoldable pub joined : String → List String → String
joined separator [] = ""
joined separator (s ∷ []) = s
joined separator (s ∷ t ∷ rest) = s <> separator <> joined separator (t ∷ rest)

-- s < t in the order of the characters, which is that of the bytes of UTF-8.
unfoldable pub text_lt : String → String → Bool
text_lt s String.[] = false
text_lt String.[] (String.◌∷◌ d t) = true
text_lt (String.◌∷◌ c s) (String.◌∷◌ d t) =
    ltb (code c) (code d) || (eqb (code c) (code d) && text_lt s t)

unfoldable pub has_suffix : String → String → Bool
has_suffix String.[] t = t == ""
has_suffix (String.◌∷◌ c s) t = String.◌∷◌ c s == t || has_suffix s t

-- The text below the prefix, or the text itself if it does not begin with it.
below : String → String → String
below s String.[] = s
below String.[] (String.◌∷◌ d t) = String.[]
below (String.◌∷◌ c s) (String.◌∷◌ d t) = below s t

unfoldable pub trim_prefix : String → String → String
unfolding below has_prefix
trim_prefix s prefix = if has_prefix s prefix then below s prefix else s

-- The number of characters.
unfoldable pub text_length : String → ℕ
text_length String.[] = 0
text_length (String.◌∷◌ c s) = text_length s + 1

-- len(s), the number of bytes in UTF-8.
unfoldable pub byte_length : String → ℕ
byte_length String.[] = 0
byte_length (String.◌∷◌ c s) =
    (if ltb (code c) 0x80
      then 1
      else if ltb (code c) 0x800
      then 2
      else if ltb (code c) 0x10000
      then 3
      else 4)
    + byte_length s

-- strings.ReplaceAll of one character by another
unfoldable pub replace_char : Char → Char → String → String
replace_char from to String.[] = String.[]
replace_char from to (String.◌∷◌ c s) =
    String.◌∷◌ (if eqb (code c) (code from) then to else c) (replace_char from to s)

-- strings.Split at a separator of one character: the first part and the others.
unfoldable pub split_first : Char → String → String × List String
split_first separator String.[] = (String.[], [])
split_first separator (String.◌∷◌ c s) =
    let (part, others) = split_first separator s in
    if eqb (code c) (code separator)
    then (String.[], part ∷ others)
    else (String.◌∷◌ c part, others)

-- strings.Fields: the word that the text begins with, which may be empty, and the words after it.
word_first : String → String × List String
word_first String.[] = (String.[], [])
word_first (String.◌∷◌ c s) =
    let (word, others) = word_first s in
    if is_space (code c)
    then (String.[], if word == "" then others else word ∷ others)
    else (String.◌∷◌ c word, others)

unfoldable pub fields : String → List String
unfolding word_first is_space
fields s = let (word, others) = word_first s in if word == "" then others else word ∷ others

trim_space_lem : trim_space "  Ab c\n" ≡ "Ab c"
unfolding trim_space
trim_space_lem = refl

to_upper_lem : to_upper "in_progress жқ" ≡ "IN_PROGRESS ЖҚ"
unfolding to_upper
to_upper_lem = refl

to_lower_lem : to_lower "PowerShell Қ" ≡ "powershell қ"
unfolding to_lower
to_lower_lem = refl

contains_lem : contains "abcd" "bc" ≡ true
unfolding contains
contains_lem = refl

fields_lem : fields " a  or bc " ≡ "a" ∷ "or" ∷ "bc" ∷ []
unfolding fields
fields_lem = refl

split_first_lem : split_first "|" "a|b|" ≡ ("a", "b" ∷ "" ∷ [])
unfolding split_first
split_first_lem = refl
