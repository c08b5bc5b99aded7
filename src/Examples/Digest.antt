-- ===== src/Examples/Digest.antt =====
-- A digest for the examples: a text with each character written as its code, in strokes.
use kazutb_siem.Base.{ℕ, zero, suc, ◌<◌, String, ◌≡◌, refl, ap, ◌≢◌, true, arith}
use kazutb_siem.Store.Keys.{is_plain}
use kazutb_siem.Store.Tamper.{IsDigest}
use Prim.Native.Char.{Char, code}

abbrev stop : Char
stop = "b"

abbrev stroke : Char
stroke = "a"

unfoldable pub strokes : ℕ → String → String
strokes zero s = String.◌∷◌ stop s
strokes (suc n) s = String.◌∷◌ stroke (strokes n s)

unfoldable pub digest : String → String
unfolding strokes
digest String.[] = "c"
digest (String.◌∷◌ x s) = strokes (code x) (digest s)

strokes_plain : (n : ℕ) (s : String) → is_plain s ≡ true → is_plain (strokes n s) ≡ true
unfolding strokes is_plain
strokes_plain zero s h = ground (arith, h)
strokes_plain (suc n) s h = ground (arith, strokes_plain n s h)

digest_plain : (s : String) → is_plain (digest s) ≡ true
unfolding digest is_plain
digest_plain String.[] = refl
digest_plain (String.◌∷◌ x s) = strokes_plain (code x) (digest s) (digest_plain s)

unfoldable size : String → ℕ
size String.[] = 0
size (String.◌∷◌ x s) = suc (size s)

strokes_nonempty : (n : ℕ) (s : String) → 0 < size (strokes n s)
unfolding strokes size
strokes_nonempty zero s = omega arith
strokes_nonempty (suc n) s = omega arith

digest_nonempty : (s : String) → digest s ≢ ""
unfolding digest size
digest_nonempty String.[] e = omega (arith, ap size e)
digest_nonempty (String.◌∷◌ x s) e = omega (arith, ap size e, strokes_nonempty (code x) (digest s))

pub digest-IsDigest : IsDigest digest
digest-IsDigest = record { plain = digest_plain; nonempty = digest_nonempty }
