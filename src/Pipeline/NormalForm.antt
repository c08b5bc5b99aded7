-- ===== src/Pipeline/NormalForm.antt =====
-- What normalize promises of the events that the engine stores.
use kazutb_siem.Base.{ℕ, String, ◌≡◌, refl, ◌≢◌, arith, eq_iff, eqb_of_ne}
use kazutb_siem.Base.Text.{◌<>◌, trim_space}
use kazutb_siem.Core.{CanonicalEvent, ok}
use kazutb_siem.Pipeline.Normalize.{or_else, normalize_raw, normalized, normalize, Encoder}

or_else_keeps : (value fallback : String) → value ≢ "" → or_else value fallback ≡ value
unfolding or_else
or_else_keeps value fallback h = rw (eqb_of_ne value "" h) refl

or_else_twice :
    (value fallback other : String)
    → fallback ≢ ""
    → or_else (or_else value fallback) other ≡ or_else value fallback
unfolding or_else
or_else_twice value fallback other h = ground (arith, eq_iff value "", eqb_of_ne fallback "" h)

-- An event that normalize accepts belongs to the tenant of the request, whatever tenant the payload
-- names; its category is not blank, its source has a type, its identifier is the payload's or the
-- new one, and its digest is that of its message.
pub normalize_lem :
    (encoder : Encoder) (now : ℕ) (id tenant : String) (input event : CanonicalEvent)
    → normalize encoder now id tenant input ≡ ok event
    → (event.tenant_id ≡ tenant)
      × (trim_space tenant ≢ "")
      × (trim_space event.category ≢ "")
      × (event.source.kind ≢ "")
      × (event.id ≡ or_else input.id id)
      × (event.raw.hash ≡ "sha256:" <> encoder.codec.sha256_hex event.raw.message)
unfolding normalize normalized normalize_raw
normalize_lem encoder now id tenant input event e = (
  ground (arith, e),
  (λ p. ground (arith, e, p, eq_iff (trim_space tenant) "")),
  (λ p. ground (arith, e, p, eq_iff (trim_space input.category) "")),
  (λ p. ground (arith, e, p, eq_iff input.source.kind "")),
  ground (arith, e),
  ground (arith, e),
)
