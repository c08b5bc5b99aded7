-- ===== src/Base/Int.antt =====
-- Signed integers over the native numbers.
use Prim.Native.Nat.{ℕ, suc, zero, ◌+◌, ◌-◌, ◌≤◌}
use mathlib.Core.Path.{◌≡◌, refl}
use mathlib.Core.Bool.{Bool}
use native.Mathlib.Omega.{arith}
use Prim.Native.Char.{code}
use Prim.Native.String.{String}
use mathlib.Core.Bool.{true, false, ◌&&◌}
use mathlib.Core.Option.{Option, none, some}
use Prim.Native.Nat.{◌*◌}
use kazutb_siem.Base.Tests.{ltb, leb, eqb, if◌then◌else◌}

-- `negsuc n` is -(n + 1).
pub data ℤ : Type 0 where
  pos : ℕ → ℤ
  negsuc : ℕ → ℤ

abbrev pub pos_part : ℤ → ℕ
pos_part (pos n) = n
pos_part (negsuc n) = 0

abbrev pub neg_part : ℤ → ℕ
neg_part (pos n) = 0
neg_part (negsuc n) = suc n

abbrev pub sub_ℕ : ℕ → ℕ → ℤ
sub_ℕ a b = if leb b a then pos (a - b) else negsuc (b - a - 1)

infixl 65 ◌+ℤ◌
infix 50 ◌≤ℤ◌
unfoldable pub ◌+ℤ◌ : ℤ → ℤ → ℤ
a +ℤ b = sub_ℕ (pos_part a + pos_part b) (neg_part a + neg_part b)

abbrev pub ◌≤ℤ◌ : ℤ → ℤ → Type 0
a ≤ℤ b = pos_part a + neg_part b ≤ pos_part b + neg_part a

abbrev pub ltb_ℤ : ℤ → ℤ → Bool
ltb_ℤ a b = ltb (pos_part a + neg_part b) (pos_part b + neg_part a)

pub +ℤ_parts :
    (a b : ℤ)
    → pos_part (a +ℤ b) + neg_part a + neg_part b ≡ neg_part (a +ℤ b) + pos_part a + pos_part b
unfolding ◌+ℤ◌
+ℤ_parts a b = ground arith

-- The number that decimal digits write, after those that gave n.
decimal_from : ℕ → String → Option ℕ
decimal_from n String.[] = some n
decimal_from n (String.◌∷◌ c s) = elim (leb b'0' (code c) && leb (code c) b'9') [
  | true ↦ decimal_from (n * 10 + (code c - b'0')) s
  | false ↦ none
]

unfoldable pub decimal : String → Option ℕ
unfolding decimal_from
decimal String.[] = none
decimal (String.◌∷◌ c s) = decimal_from 0 (String.◌∷◌ c s)

positive_int64 : Option ℕ → ℤ × Bool
positive_int64 none = (pos 0, false)
positive_int64 (some n) =
    if ltb n 9223372036854775808 then (pos n, true) else (pos 9223372036854775807, false)

-- The negative number of this size; that of 0 is 0.
negative : ℕ → ℤ
negative zero = pos 0
negative (suc n) = negsuc n

negative_int64 : Option ℕ → ℤ × Bool
unfolding negative
negative_int64 none = (pos 0, false)
negative_int64 (some n) =
    if leb n 9223372036854775808 then (negative n, true) else (negsuc 9223372036854775807, false)

-- strconv.ParseInt(s, 10, 64): the number, and whether there is no error. The number is 0 at a text
-- that is no number, and the nearest one at a number out of range.
unfoldable pub parse_int : String → ℤ × Bool
unfolding decimal positive_int64 negative_int64
parse_int String.[] = (pos 0, false)
parse_int (String.◌∷◌ c s) =
    if eqb (code c) b'+'
    then positive_int64 (decimal s)
    else if eqb (code c) b'-'
    then negative_int64 (decimal s)
    else positive_int64 (decimal (String.◌∷◌ c s))

parse_int_lem : parse_int "-42" ≡ (negsuc 41, true)
unfolding parse_int
parse_int_lem = refl
