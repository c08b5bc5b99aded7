-- ===== src/Store/Keys.antt =====
-- The separator of the keys that the store builds from texts, and what a key tells of its parts.
use Prim.Native.Char.{Char, code}
use mathlib.Core.Path.{ap₂}
use text.Mathlib.TextEquality.{Char-path}
use text.Mathlib.TextLemmas.{cons-eq-cons, nil-append, cons-append}
use kazutb_siem.Base.{String, ◌≡◌, refl, sym, ap, ◌∙◌, Bool, true, ◌&&◌, not, arith, eqb}
use kazutb_siem.Tenant.{last_is_valid, inside_is_valid, valid}
use kazutb_siem.Base.Text.{◌<>◌, has_prefix}

-- No character of the text is the separator.
unfoldable pub is_plain : String → Bool
is_plain String.[] = true
is_plain (String.◌∷◌ x s) = not (eqb (code x) b'|') && is_plain s

plain_tail : (x : Char) (s : String) → is_plain (String.◌∷◌ x s) ≡ true → is_plain s ≡ true
unfolding is_plain
plain_tail x s p = ground (arith, p)

abbrev bar : Char
bar = "|"

bar_after : (s : String) → "|" <> s ≡ String.◌∷◌ bar s
bar_after s = cons-append bar "" s ∙ ap (String.◌∷◌ bar) (nil-append s)

module _ (s a : String) where
  at_start : "" <> "|" <> a ≡ String.◌∷◌ bar a
  at_start = nil-append ("|" <> a) ∙ bar_after a

  at_cons : (x : Char) → String.◌∷◌ x s <> "|" <> a ≡ String.◌∷◌ x (s <> "|" <> a)
  at_cons x = cons-append x s ("|" <> a)

bar_is_not_plain : (x : Char) (s : String) → bar ≡ x → is_plain (String.◌∷◌ x s) ≡ true → ⊥
unfolding is_plain
bar_is_not_plain x s e p = ground (arith, ap code e)

-- The text before the first separator, and the text after it, are determined.
pub split_at_bar :
    (s t a b : String)
    → is_plain s ≡ true
    → is_plain t ≡ true
    → s <> "|" <> a ≡ t <> "|" <> b
    → (s ≡ t) × (a ≡ b)
split_at_bar String.[] String.[] a b p q e =
    (refl, (cons-eq-cons.0 (sym (at_start "" a) ∙ e ∙ at_start "" b)).1)
split_at_bar String.[] (String.◌∷◌ y t) a b p q e =
    absurd (bar_is_not_plain y t (cons-eq-cons.0 (sym (at_start "" a) ∙ e ∙ at_cons t b y)).0 q)
split_at_bar (String.◌∷◌ x s) String.[] a b p q e =
    absurd (bar_is_not_plain x s (cons-eq-cons.0 (sym (at_start "" b) ∙ sym e ∙ at_cons s a x)).0 p)
split_at_bar (String.◌∷◌ x s) (String.◌∷◌ y t) a b p q e =
    let parts = cons-eq-cons.0 (sym (at_cons s a x) ∙ e ∙ at_cons t b y) in
    let rest = split_at_bar s t a b (plain_tail x s p) (plain_tail y t q) parts.1 in
    (ap₂ String.◌∷◌ parts.0 rest.0, rest.1)

-- A key that begins with a tenant and the separator is a key of that tenant.
pub prefix_at_bar :
    (u t j : String)
    → is_plain u ≡ true
    → is_plain t ≡ true
    → has_prefix (u <> "|" <> j) (t <> "|") ≡ true
    → t ≡ u
unfolding has_prefix is_plain
prefix_at_bar String.[] String.[] j p q h = refl
prefix_at_bar String.[] (String.◌∷◌ y t) j p q h =
    absurd (ground (arith, q, rw (at_start "" j, cons-append y t "|") at h))
prefix_at_bar (String.◌∷◌ x u) String.[] j p q h =
    absurd (ground (arith, p, rw (at_cons u j x) at h))
prefix_at_bar (String.◌∷◌ x u) (String.◌∷◌ y t) j p q h =
    let both : (code y ≡ code x) × (has_prefix (u <> "|" <> j) (t <> "|") ≡ true) =
      let step = rw (at_cons u j x, cons-append y t "|") at h in
      (ground (arith, step), ground (arith, step)) in
    ap₂ String.◌∷◌ (Char-path y x both.0)
      (prefix_at_bar u t j (plain_tail x u p) (plain_tail y t q) both.1)

tail-is_plain :
    (c : Char) (s : String)
    → last_is_valid (String.◌∷◌ c s) ≡ true
    → inside_is_valid s ≡ true
    → is_plain s ≡ true
unfolding last_is_valid inside_is_valid is_plain
tail-is_plain c String.[] l h = refl
tail-is_plain c (String.◌∷◌ d String.[]) l h = ground (arith, l, h)
tail-is_plain c (String.◌∷◌ d (String.◌∷◌ e s)) l h =
    ground (arith, h, tail-is_plain d (String.◌∷◌ e s) l (ground (arith, h)))

-- A tenant identifier that passes tenant.Valid has no separator in it.
pub valid-is_plain : (s : String) → valid s ≡ true → is_plain s ≡ true
unfolding valid is_plain
valid-is_plain String.[] h = refl
valid-is_plain (String.◌∷◌ c s) h =
    ground (arith, h, tail-is_plain c s (ground (arith, h)) (ground (arith, h)))
