-- ===== src/Tenant.antt =====
-- internal/platform/tenant/id.go: the form of a tenant's identifier. Go walks the bytes; a byte of a
-- character outside ASCII is refused as the character is here.
use Prim.Native.Char.{code}
use Prim.Native.String.{len}
use kazutb_siem.Base.{ℕ, String, Bool, true, false, ◌&&◌, ◌||◌, not, ◌==◌, ltb, leb, eqb}

abbrev pub max_id_length : ℕ
max_id_length = 63

unfoldable pub is_lower_alpha_numeric : ℕ → Bool
is_lower_alpha_numeric c = (leb b'a' c && leb c b'z') || (leb b'0' c && leb c b'9')

unfoldable pub first_is_valid : String → Bool
unfolding is_lower_alpha_numeric
first_is_valid String.[] = false
first_is_valid (String.◌∷◌ c s) = is_lower_alpha_numeric (code c)

unfoldable pub last_is_valid : String → Bool
unfolding is_lower_alpha_numeric
last_is_valid String.[] = false
last_is_valid (String.◌∷◌ c String.[]) = is_lower_alpha_numeric (code c)
last_is_valid (String.◌∷◌ c (String.◌∷◌ d s)) = last_is_valid (String.◌∷◌ d s)

-- The loop, over what stands below the last character.
unfoldable pub inside_is_valid : String → Bool
unfolding is_lower_alpha_numeric
inside_is_valid String.[] = true
inside_is_valid (String.◌∷◌ c String.[]) = true
inside_is_valid (String.◌∷◌ c (String.◌∷◌ d s)) =
    (is_lower_alpha_numeric (code c) || eqb (code c) b'-') && inside_is_valid (String.◌∷◌ d s)

unfoldable pub rest_of : String → String
rest_of String.[] = ""
rest_of (String.◌∷◌ c s) = s

unfoldable pub valid : String → Bool
unfolding first_is_valid last_is_valid inside_is_valid rest_of
valid value =
    not (value == "")
    && not (ltb max_id_length (len value))
    && first_is_valid value
    && last_is_valid value
    && inside_is_valid (rest_of value)
