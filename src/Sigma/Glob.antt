-- ===== src/Sigma/Glob.antt =====
-- Go's path.Match at patterns without a backslash. A pattern that is not well formed matches nothing.
use Prim.Native.Char.{code}
use kazutb_siem.Base.{
  ℕ, zero, suc, ◌+◌, String, ◌≡◌, refl, Bool, true, false, ◌&&◌, ◌||◌, not, Option, none, some,
  ◌==◌, leb, eqb, if◌then◌else◌,
}
use kazutb_siem.Base.Text.{has_prefix, contains, trim_prefix, text_length}

-- scanChunk: the pattern up to the next star that stands outside a class, and the rest.
unfoldable pub scan_chunk : Bool → String → String × String
scan_chunk in_range String.[] = ("", "")
scan_chunk in_range (String.◌∷◌ c s) =
    let inside =
      if eqb (code c) b'[' then true else if eqb (code c) b']' then false else in_range in
    let (chunk, rest) = scan_chunk inside s in
    if eqb (code c) b'*' && not in_range then ("", String.◌∷◌ c s) else (String.◌∷◌ c chunk, rest)

-- A bound of a range, with the pattern after it, which is not empty.
unfoldable pub range_bound : String → Option (ℕ × String)
range_bound String.[] = none
range_bound (String.◌∷◌ c String.[]) = none
range_bound (String.◌∷◌ c (String.◌∷◌ d s)) =
    if eqb (code c) b'-' || eqb (code c) b']' then none else some (code c, String.◌∷◌ d s)

-- One range: its bounds and the pattern after it.
unfoldable pub range_at : String → Option (ℕ × ℕ × String)
unfolding range_bound has_prefix trim_prefix
range_at s = elim (range_bound s) [
  | none ↦ none
  | some (low, rest) ↦
      if has_prefix rest "-"
      then elim (range_bound (trim_prefix rest "-")) [
        | none ↦ none
        | some (high, after) ↦ some (low, high, after)
      ]
      else some (low, low, rest)
]

-- The ranges of a class, from the state of the search: whether one was read, and whether one had
-- the character. Each range takes a character of the pattern, whose length is enough fuel.
unfoldable pub ranges : ℕ → ℕ → Bool → Bool → String → Option (Bool × String)
unfolding range_at has_prefix trim_prefix
ranges zero r some_read matched s = none
ranges (suc fuel) r some_read matched s =
    if some_read && has_prefix s "]" then some (matched, trim_prefix s "]") else elim (range_at s) [
      | none ↦ none
      | some (low, high, rest) ↦ ranges fuel r true (matched || (leb low r && leb r high)) rest
    ]

-- The class below its bracket: whether it accepts the character, and the pattern after it.
unfoldable pub class_accepts : ℕ → String → Option (Bool × String)
unfolding ranges has_prefix trim_prefix text_length
class_accepts r s =
    let negated = has_prefix s "^" in
    let body = trim_prefix s "^" in
    elim (ranges (text_length s + 1) r false false body) [
      | none ↦ none
      | some (matched, rest) ↦ some (if negated then not matched else matched, rest)
    ]

-- matchChunk: what is left of the name. Each round takes a character of the chunk.
unfoldable pub match_chunk : ℕ → String → String → Option String
unfolding class_accepts
match_chunk fuel String.[] s = some s
match_chunk zero (String.◌∷◌ c chunk) s = none
match_chunk (suc fuel) (String.◌∷◌ c chunk) String.[] = none
match_chunk (suc fuel) (String.◌∷◌ c chunk) (String.◌∷◌ d s) =
    let onward = match_chunk fuel chunk s in
    if eqb (code c) b'['
    then elim (class_accepts (code d) chunk) [
      | none ↦ none
      | some (accepted, rest) ↦ elim accepted [ true ↦ match_chunk fuel rest s | false ↦ none ]
    ]
    else if eqb (code c) b'?'
    then if eqb (code d) b'/' then none else onward
    else if eqb (code c) (code d)
    then onward
    else none

-- matchChunk with enough fuel
unfoldable pub chunk_at : String → String → Option String
unfolding match_chunk text_length
chunk_at chunk s = match_chunk (text_length chunk) chunk s

-- The loop for a star: the first place after which the chunk matches; the last chunk has to reach
-- the end of the name. A star passes no slash.
unfoldable pub star_scan : String → Bool → String → Option String
unfolding chunk_at
star_scan chunk last String.[] = none
star_scan chunk last (String.◌∷◌ c s) =
    let later = star_scan chunk last s in
    if eqb (code c) b'/' then none else elim (chunk_at chunk s) [
      | some rest ↦ if last && not (rest == "") then later else some rest
      | none ↦ later
    ]

unfoldable pub drop_stars : String → String
drop_stars String.[] = ""
drop_stars (String.◌∷◌ c s) =
    let rest = drop_stars s in if eqb (code c) b'*' then rest else String.◌∷◌ c s

-- Where the pattern's first chunk, after a star or not, leaves the name.
unfoldable pub next_name : Bool → String → String → String → Option String
unfolding chunk_at star_scan
next_name star chunk rest name =
    let scanned = if star then star_scan chunk (rest == "") name else none in
    elim (chunk_at chunk name) [
      | some left ↦ if left == "" || not (rest == "") then some left else scanned
      | none ↦ scanned
    ]

-- The loop of Match, a chunk in each round.
unfoldable pub match_chunks : ℕ → String → String → Bool
unfolding drop_stars scan_chunk next_name contains
match_chunks fuel String.[] name = name == ""
match_chunks zero (String.◌∷◌ c s) name = false
match_chunks (suc fuel) (String.◌∷◌ c s) name =
    let star = eqb (code c) b'*' in
    let (chunk, rest) = scan_chunk false (drop_stars (String.◌∷◌ c s)) in
    if star && chunk == "" then not (contains name "/") else elim (next_name star chunk rest name) [
      | none ↦ false
      | some left ↦ match_chunks fuel rest left
    ]

unfoldable pub path_match : String → String → Bool
unfolding match_chunks text_length
path_match pattern name = match_chunks (text_length pattern) pattern name

path_match_lem :
    (path_match "c:/*/[p-r]ow?r*" "c:/win/powershell.exe" ≡ true)
    × (path_match "*.e[^x]e" "a.exe" ≡ false)
    × (path_match "a*" "a/b" ≡ false)
unfolding path_match
path_match_lem = (refl, refl, refl)
