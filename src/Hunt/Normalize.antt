-- ===== src/Hunt/Normalize.antt =====
-- Normalize, ValidateTemplate and ResolveTemplate. A time before Go's zero time counts as the zero
-- time; the window of such a request is too long for `now` later than 31 days after it.
use kazutb_siem.Base.{
  ℕ, ◌+◌, ◌-◌, ◌*◌, ◌%◌, String, Bool, false, ◌||◌, ◌&&◌, not, Option, none, some, ◌==◌, ltb, leb,
  eqb, if◌then◌else◌,
}
use kazutb_siem.Base.Int.{ℤ, pos, negsuc}
use kazutb_siem.Base.Text.{trim_space, byte_length}
use kazutb_siem.Core.{Result, invalid_query, wrap, ok, err, ◌>>=◌}
use kazutb_siem.Hunt.Request.{HuntExpression, HuntRequest}
use kazutb_siem.Hunt.Validate.{validate_expression}

abbrev pub second : ℕ
second = 1000000000

abbrev pub maximum_lookback : ℕ
maximum_lookback = 31 * 24 * 3600 * second

abbrev pub default_lookback : ℕ
default_lookback = 24 * 3600 * second

abbrev pub five_minutes : ℕ
five_minutes = 300 * second

-- The int64 with these 64 bits.
abbrev signed : ℕ → ℤ
signed n = if ltb n 9223372036854775808 then pos n else negsuc (18446744073709551615 - n)

-- time.Duration(seconds) * time.Second, for positive seconds
unfoldable pub seconds_duration : ℕ → ℤ
seconds_duration seconds = signed (seconds * second % 18446744073709551616)

abbrev pub is_positive : ℤ → Bool
is_positive (pos n) = ltb 0 n
is_positive (negsuc n) = false

unfoldable pub lookback_of : ℤ → ℤ
unfolding seconds_duration
lookback_of (pos seconds) = if ltb 0 seconds then seconds_duration seconds else pos default_lookback
lookback_of (negsuc n) = pos default_lookback

-- now.Add(-lookback)
abbrev pub before : ℕ → ℤ → ℕ
before now (pos n) = now - n
before now (negsuc n) = now + n + 1

-- The range of the request, or of the last time.
unfoldable pub range_of : HuntRequest → String → ℕ → Result (ℕ × ℕ)
unfolding lookback_of
range_of request cursor now =
    if eqb request.start 0 && eqb request.end_at 0
    then if not (cursor == "")
      then err (wrap "paginated requests must preserve start and end" invalid_query)
      else ok (before now (lookback_of request.lookback_seconds), now)
    else if eqb request.start 0 || eqb request.end_at 0
    then err (wrap "start and end must be provided together" invalid_query)
    else ok (request.start, request.end_at)

abbrev pub default_limit : ℤ → ℤ
default_limit (pos n) = if eqb n 0 then pos 100 else pos n
default_limit (negsuc n) = negsuc n

abbrev pub valid_limit : ℤ → Bool
valid_limit (pos n) = leb 1 n && leb n 1000
valid_limit (negsuc n) = false

unfoldable pub validate_optional : Option HuntExpression → Result ℕ
unfolding validate_expression
validate_optional none = ok 0
validate_optional (some e) = validate_expression e 1 0

-- From the range on.
unfoldable pub normalize_range : HuntRequest → String → ℕ → ℕ × ℕ → Result HuntRequest
unfolding validate_optional
normalize_range request cursor now (start, end_at) =
    if leb end_at start || ltb maximum_lookback (end_at - start)
    then err (wrap "time range must be greater than zero and at most 31 days" invalid_query)
    else if ltb (now + five_minutes) end_at
    then err (wrap "end cannot be more than five minutes in the future" invalid_query)
    else if not (valid_limit (default_limit request.limit))
    then err (wrap "limit must be between 1 and 1000" invalid_query)
    else validate_optional request.expression >>= λ _. ok (record {
      start = start;
      end_at = end_at;
      lookback_seconds = pos 0;
      expression = request.expression;
      limit = default_limit request.limit;
      cursor = cursor;
    })

unfoldable pub normalize_request : HuntRequest → ℕ → Result HuntRequest
unfolding trim_space byte_length range_of normalize_range
normalize_request request now =
    let cursor = trim_space request.cursor in
    if ltb 4096 (byte_length cursor)
    then err (wrap "cursor is too large" invalid_query)
    else range_of request cursor now >>= normalize_range request cursor now

-- if request.Start.IsZero() && request.End.IsZero() && request.LookbackSeconds == 0
abbrev pub defaulted : HuntRequest → HuntRequest
defaulted request = elim request.lookback_seconds [
  | pos n ↦
      if eqb request.start 0 && eqb request.end_at 0 && eqb n 0
      then record request { lookback_seconds = pos 86400 }
      else request
  | negsuc n ↦ request
]

abbrev pub relative : HuntRequest → HuntRequest
relative request = record request { start = 0; end_at = 0 }

abbrev pub within_bounds : ℤ → Bool
within_bounds (pos n) = leb (60 * second) n && leb n maximum_lookback
within_bounds (negsuc n) = false

-- From the default lookback on.
unfoldable pub validate_defaulted : HuntRequest → ℕ → Result HuntRequest
unfolding normalize_request lookback_of
validate_defaulted request now =
    if is_positive request.lookback_seconds
    then if not (within_bounds (lookback_of request.lookback_seconds))
      then err (wrap "saved lookback must be between one minute and 31 days" invalid_query)
      else (normalize_request (relative request) now >>= λ _. ok (record request { cursor = "" }))
    else normalize_request request now >>= λ _. ok request

unfoldable pub validate_template : HuntRequest → ℕ → Result HuntRequest
unfolding validate_defaulted
validate_template request now =
    if not (trim_space request.cursor == "")
    then err (wrap "saved hunts cannot contain a cursor" invalid_query)
    else validate_defaulted (defaulted request) now

unfoldable pub resolve_template : HuntRequest → ℕ → Result HuntRequest
unfolding normalize_request
resolve_template request now =
    if is_positive request.lookback_seconds
    then normalize_request (relative request) now
    else normalize_request request now
