-- ===== src/Pipeline/Normalize.antt =====
-- normalize: the event as the engine stores it. The time's zone is no part of the model, so UTC()
-- changes nothing.
use kazutb_siem.Base.{ℕ, String, List, ◌==◌, eqb, if◌then◌else◌}
use kazutb_siem.Base.Text.{◌<>◌, trim_space}
use kazutb_siem.Core.{
  EventSource, UserRef, DeviceRef, ProcessRef, RawRef, CanonicalEvent, Result, invalid_event, wrap,
  ok, err,
}
use kazutb_siem.Store.Audit.{Codec}

-- json.Marshal at the values that the engine encodes: the raw message of an event without one, and
-- the parts of a correlation group.
pub record Encoder : Type 0 where
  pub codec : Codec
  pub raw_message : String → String → EventSource → UserRef → DeviceRef → ProcessRef → String
  pub group_parts : List (String × List String) → String

unfoldable pub or_else : String → String → String
or_else value fallback = if value == "" then fallback else value

unfoldable pub or_now : ℕ → ℕ → ℕ
or_now now time = if eqb time 0 then now else time

-- The message with its digest, which the reference repeats without the prefix.
unfoldable pub normalize_raw : Encoder → CanonicalEvent → RawRef
unfolding or_else
normalize_raw encoder input =
    let message = or_else input.raw.message (
      encoder.raw_message input.category input.activity_name input.source input.user input.device
        input.process) in
    let digest = encoder.codec.sha256_hex message in
    record {
      message = message;
      hash = "sha256:" <> digest;
      reference = or_else input.raw.reference ("embedded://raw/" <> digest);
    }

-- What normalize makes of an event that passes its guards; `id` is what NewID returns.
unfoldable pub normalized : Encoder → ℕ → String → String → CanonicalEvent → CanonicalEvent
unfolding or_else or_now normalize_raw
normalized encoder now id tenant input = record input {
  tenant_id = tenant;
  id = or_else input.id id;
  event_time = or_now now input.event_time;
  ingest_time = or_now now input.ingest_time;
  collector_id = or_else input.collector_id "collector-http-dev";
  schema = record input.schema {
    ocsf_version = or_else input.schema.ocsf_version "KCSP-OCSF-compatible-v0.1";
  };
  parser =
      if input.parser.id == ""
      then record { id = "embedded-json"; version = "0.1.0" }
      else input.parser;
  raw = normalize_raw encoder input;
}

unfoldable pub normalize : Encoder → ℕ → String → String → CanonicalEvent → Result CanonicalEvent
unfolding trim_space normalized
normalize encoder now id tenant input =
    if trim_space tenant == ""
    then err (wrap "tenant context is required" invalid_event)
    else if trim_space input.category == ""
    then err (wrap "category is required" invalid_event)
    else if input.source.kind == ""
    then err (wrap "source.type is required" invalid_event)
    else ok (normalized encoder now id tenant input)
