-- ===== src/Hunt/Ranges.antt =====
-- What a normalized request keeps to, and when a saved hunt runs.
use kazutb_siem.Base.{
  ◌⊎◌, ◌∙◌, sym, inl, inr, false, ◌==◌, Bool-cases, else_of, then_of, ap, ℕ, ◌+◌, ◌-◌, ◌*◌, ◌≤◌,
  ◌<◌, String, ◌≡◌, refl, subst, true, ◌||◌, not, arith, ltb, leb,
}
use kazutb_siem.Base.Int.{ℤ, pos_part, negsuc, pos}
use kazutb_siem.Base.Text.{trim_space, byte_length}
use kazutb_siem.Core.{bind_inv, ok_inv, guard_inv, ok}
use kazutb_siem.Hunt.Request.{HuntRequest}
use kazutb_siem.Hunt.Normalize.{
  is_positive, defaulted, seconds_duration, validate_defaulted, validate_template, resolve_template,
  lookback_of, relative, within_bounds, maximum_lookback, five_minutes, range_of, default_limit,
  valid_limit, validate_optional, normalize_range, normalize_request,
}

-- A request that may be run at the time `now`.
pub record IsRunnable (now : ℕ) (request : HuntRequest) : Type 0 where
  pub some_time : request.start < request.end_at
  pub short : request.end_at ≤ request.start + maximum_lookback
  pub not_later : request.end_at ≤ now + 300 * 1000000000
  pub resolved : request.lookback_seconds ≡ pos 0
  pub limited : valid_limit request.limit ≡ true
  pub valid : (n : ℕ) × (validate_optional request.expression ≡ ok n)

range_lem :
    (request : HuntRequest) (cursor : String) (now : ℕ) (range : ℕ × ℕ) (normal : HuntRequest)
    → normalize_range request cursor now range ≡ ok normal
    → IsRunnable now normal
unfolding normalize_range
range_lem request cursor now (start, end_at) normal e =
    let (window, e₁) =
      guard_inv (leb end_at start || ltb maximum_lookback (end_at - start)) _ _ e in
    let (early, e₂) = guard_inv (ltb (now + five_minutes) end_at) _ _ e₁ in
    let (limit, e₃) = guard_inv (not (valid_limit (default_limit request.limit))) _ _ e₂ in
    let (n, valid, made) = bind_inv (validate_optional request.expression) _ e₃ in
    subst (IsRunnable now) (ok_inv made) (record {
      some_time = ground (arith, window);
      short = ground (arith, window);
      not_later = ground (arith, early);
      resolved = refl;
      limited = ground (arith, limit);
      valid = (n, valid);
    })

-- A request that is normalized without an error has a range that is not empty, is at most 31 days
-- long and ends at most five minutes later than now; no lookback; a limit from 1 to 1000; and an
-- expression that is valid.
pub normalize_request-IsRunnable :
    (request : HuntRequest) (now : ℕ) (normal : HuntRequest)
    → normalize_request request now ≡ ok normal
    → IsRunnable now normal
unfolding normalize_request
normalize_request-IsRunnable request now normal e =
    let cursor = trim_space request.cursor in
    let (_, e₁) = guard_inv (ltb 4096 (byte_length cursor)) _ _ e in
    let (range, _, e₂) =
      bind_inv (range_of request cursor now) (normalize_range request cursor now) e₁ in
    range_lem request cursor now range normal e₂

-- The parts of a request that its lookback does not touch.
abbrev IsSound : HuntRequest → Type 0
IsSound request =
    (valid_limit (default_limit request.limit) ≡ true)
    × ((n : ℕ) × (validate_optional request.expression ≡ ok n))

sound_lem :
    (request : HuntRequest) (cursor : String) (now : ℕ) (range : ℕ × ℕ) (normal : HuntRequest)
    → normalize_range request cursor now range ≡ ok normal
    → IsSound request
unfolding normalize_range
sound_lem request cursor now (start, end_at) normal e =
    let (window, e₁) =
      guard_inv (leb end_at start || ltb maximum_lookback (end_at - start)) _ _ e in
    let (early, e₂) = guard_inv (ltb (now + five_minutes) end_at) _ _ e₁ in
    let (limit, e₃) = guard_inv (not (valid_limit (default_limit request.limit))) _ _ e₂ in
    let (n, valid, made) = bind_inv (validate_optional request.expression) _ e₃ in
    (ground (arith, limit), (n, valid))

normalize_request-IsSound :
    (request : HuntRequest) (now : ℕ) (normal : HuntRequest)
    → normalize_request request now ≡ ok normal
    → IsSound request
unfolding normalize_request
normalize_request-IsSound request now normal e =
    let cursor = trim_space request.cursor in
    let (_, e₁) = guard_inv (ltb 4096 (byte_length cursor)) _ _ e in
    let (range, _, e₂) =
      bind_inv (range_of request cursor now) (normalize_range request cursor now) e₁ in
    sound_lem request cursor now range normal e₂

-- The request with this range.
abbrev ranged : HuntRequest → ℕ → ℕ → HuntRequest
ranged request start end_at = record {
  start = start;
  end_at = end_at;
  lookback_seconds = pos 0;
  expression = request.expression;
  limit = default_limit request.limit;
  cursor = "";
}

ranged_lem :
    (request : HuntRequest) (now start end_at : ℕ)
    → (leb end_at start || ltb maximum_lookback (end_at - start)) ≡ false
    → ltb (now + five_minutes) end_at ≡ false
    → IsSound request
    → normalize_range request "" now (start, end_at) ≡ ok (ranged request start end_at)
unfolding normalize_range
ranged_lem request now start end_at window early (limit, valid) =
    rw (window, early, limit, valid.1) refl

-- The relative request without a cursor, from its lookback.
relative_lem :
    (request : HuntRequest) (now : ℕ) (lookback : ℤ)
    → lookback_of request.lookback_seconds ≡ lookback
    → within_bounds lookback ≡ true
    → IsSound request
    → maximum_lookback < now
    → (normal : HuntRequest) × ((normalize_request (relative (record request { cursor = "" })) now
          ≡ ok normal)
        × (normal.end_at ≡ now)
        × (pos (now - normal.start) ≡ lookback))
unfolding normalize_request trim_space byte_length range_of normalize_range
relative_lem request now (pos n) e bounds sound late =
    let window =
      ranged_lem (relative (record request { cursor = "" })) now (now - n) now
        (ground (arith, bounds, late)) (ground arith) sound in
    (ranged request (now - n) now, (rw e window, refl, ap pos (ground (arith, bounds, late))))
relative_lem request now (negsuc n) e bounds sound late = absurd (ground (arith, bounds))

defaulted_lem :
    (request t : HuntRequest) (now : ℕ)
    → validate_defaulted request now ≡ ok t
    → is_positive t.lookback_seconds ≡ true
    → (t ≡ record request { cursor = "" })
      × (within_bounds (lookback_of request.lookback_seconds) ≡ true)
      × IsSound request
unfolding validate_defaulted
defaulted_lem request t now e positive = elim (Bool-cases (is_positive request.lookback_seconds)) [
  | inl x ↦
      let e₁ = then_of (is_positive request.lookback_seconds) _ _ x e in
      let (bounds, e₂) =
        guard_inv (not (within_bounds (lookback_of request.lookback_seconds))) _ _ e₁ in
      let (normal, normalized, made) = bind_inv (normalize_request (relative request) now) _ e₂ in
      (
        sym (ok_inv made),
        ground (arith, bounds),
        normalize_request-IsSound (relative request) now normal normalized,
      )
  | inr x ↦
      let e₁ = else_of (is_positive request.lookback_seconds) _ _ x e in
      let (normal, normalized, made) = bind_inv (normalize_request request now) _ e₁ in
      absurd (
        ground (
          arith,
          x,
          subst (λ r. is_positive r.lookback_seconds ≡ true) (sym (ok_inv made)) positive,
        ))
]

-- It runs at this time, from its lookback before it.
abbrev RunsAt : ℕ → HuntRequest → Type 0
RunsAt later saved =
    (normal : HuntRequest) × ((resolve_template saved later ≡ ok normal)
      × (normal.end_at ≡ later)
      × (pos (later - normal.start) ≡ lookback_of saved.lookback_seconds))

resolved_lem :
    (request : HuntRequest) (later : ℕ)
    → is_positive request.lookback_seconds ≡ true
    → within_bounds (lookback_of request.lookback_seconds) ≡ true
    → IsSound request
    → maximum_lookback < later
    → RunsAt later (record request { cursor = "" })
unfolding resolve_template
resolved_lem request later positive bounds sound late =
    let (normal, (run, ends, span)) =
      relative_lem request later (lookback_of request.lookback_seconds) refl bounds sound late in
    (normal, (rw positive run, ends, span))

-- The lookback in nanoseconds, for as many seconds as 64 bits hold in nanoseconds.
seconds_lem : (s : ℕ) → 0 < s → s ≤ 9223372036 → lookback_of (pos s) ≡ pos (s * 1000000000)
unfolding lookback_of seconds_duration
seconds_lem s some_time few = ground arith

seconds_of : (lookback : ℤ) → is_positive lookback ≡ true → (s : ℕ) × (lookback ≡ pos s) × (0 < s)
seconds_of (pos s) positive = (s, refl, ground (arith, positive))
seconds_of (negsuc s) positive = absurd (ground (arith, positive))

-- It runs at this time: from as many seconds before it as its lookback has.
abbrev RunsFrom : ℕ → HuntRequest → Type 0
RunsFrom later saved =
    (normal : HuntRequest) × (seconds : ℕ) × ((resolve_template saved later ≡ ok normal)
      × (normal.end_at ≡ later)
      × (pos (later - normal.start) ≡ lookback_of saved.lookback_seconds)
      × (saved.lookback_seconds ≡ pos seconds)
      × ((later - normal.start ≡ seconds * 1000000000) ⊎ (9223372036 < seconds)))

runs_from :
    (later : ℕ) (saved : HuntRequest)
    → is_positive saved.lookback_seconds ≡ true
    → RunsAt later saved
    → RunsFrom later saved
runs_from later saved positive (normal, (run, ends, span)) =
    let (s, written, some_time) = seconds_of saved.lookback_seconds positive in
    (
      normal,
      s,
      (
        run,
        ends,
        span,
        written,
        elim (Bool-cases (leb s 9223372036)) [
          | inl few ↦ inl (
              ap pos_part
                (span ∙ ap lookback_of written ∙ seconds_lem s some_time (ground (arith, few))))
          | inr many ↦ inr (ground (arith, many))
        ],
      ),
    )

-- If a saved hunt with a positive lookback was accepted at one time, then it runs at every time that
-- is more than 31 days after the zero time: it searches up to that time, from the lookback of the
-- code before it, which is the product of the seconds and a second in 64 bits. The range is as many
-- seconds long as the saved lookback says, unless that is more than 9223372036 seconds, where the
-- product wraps.
pub validate_template-resolve_template :
    (request saved : HuntRequest) (now later : ℕ)
    → validate_template request now ≡ ok saved
    → is_positive saved.lookback_seconds ≡ true
    → maximum_lookback < later
    → (normal : HuntRequest) × (seconds : ℕ) × ((resolve_template saved later ≡ ok normal)
        × (normal.end_at ≡ later)
        × (pos (later - normal.start) ≡ lookback_of saved.lookback_seconds)
        × (saved.lookback_seconds ≡ pos seconds)
        × ((later - normal.start ≡ seconds * 1000000000) ⊎ (9223372036 < seconds)))
unfolding validate_template
validate_template-resolve_template request saved now later e positive late =
    let (_, e₁) = guard_inv (not (trim_space request.cursor == "")) _ _ e in
    let (shape, bounds, sound) = defaulted_lem (defaulted request) saved now e₁ positive in
    runs_from later saved positive (
      subst (RunsAt later) (sym shape) (
        resolved_lem (defaulted request) later
          (subst (λ r. is_positive r.lookback_seconds ≡ true) shape positive) bounds sound late))
