-- ===== src/Hunt/Fields.antt =====
-- fields, metadataFieldPattern and resolveField.
use Prim.Native.Char.{Char, code}
use kazutb_siem.Base.{
  String, Bool, true, ◌&&◌, ◌||◌, Option, none, some, List, [], ◌∷◌, ◌==◌, leb, eqb, if◌then◌else◌,
  length,
}
use kazutb_siem.Base.Text.{◌<>◌, trim_space, to_lower, text_length, split_first}
use kazutb_siem.Core.{Result, invalid_query, wrap, ok, err}

pub data Kind : Type 0 where
  string_kind number_kind text_kind : Kind

-- fieldDefinition; the kinds are the three texts that the code uses.
pub record FieldDefinition : Type 0 where
  pub column : String  -- expression
  pub kind : Kind

abbrev of_kind : Kind → String → FieldDefinition
of_kind k e = record { column = e; kind = k }

abbrev pub field_table : List (String × FieldDefinition)
field_table =
    ("event_id", of_kind string_kind "event_id")
    ∷ ("category", of_kind string_kind "category")
    ∷ ("severity", of_kind number_kind "severity")
    ∷ ("source.vendor", of_kind string_kind "source_vendor")
    ∷ ("source.product", of_kind string_kind "source_product")
    ∷ ("source.type", of_kind string_kind "source_type")
    ∷ ("user.name", of_kind string_kind "user_name")
    ∷ ("device.hostname", of_kind string_kind "device_hostname")
    ∷ ("device.ip", of_kind string_kind "JSONExtractString(payload, 'device', 'ip')")
    ∷ ("src_endpoint.ip", of_kind string_kind "src_ip")
    ∷ ("dst_endpoint.ip", of_kind string_kind "dst_ip")
    ∷ (
      "src_endpoint.hostname",
      of_kind string_kind "JSONExtractString(payload, 'src_endpoint', 'hostname')",
    )
    ∷ (
      "dst_endpoint.hostname",
      of_kind string_kind "JSONExtractString(payload, 'dst_endpoint', 'hostname')",
    )
    ∷ ("activity_name", of_kind string_kind "JSONExtractString(payload, 'activity_name')")
    ∷ ("collector_id", of_kind string_kind "JSONExtractString(payload, 'collector_id')")
    ∷ ("process.name", of_kind string_kind "JSONExtractString(payload, 'process', 'name')")
    ∷ (
      "process.command_line",
      of_kind string_kind "JSONExtractString(payload, 'process', 'command_line')",
    )
    ∷ (
      "security_result.action",
      of_kind string_kind "JSONExtractString(payload, 'security_result', 'action')",
    )
    ∷ (
      "security_result.outcome",
      of_kind string_kind "JSONExtractString(payload, 'security_result', 'outcome')",
    )
    ∷ ("raw", of_kind text_kind "payload")
    ∷ []

-- fields[name]
unfoldable pub field_of : String → List (String × FieldDefinition) → Option FieldDefinition
field_of name [] = none
field_of name ((n, f) ∷ rest) =
    let later = field_of name rest in if n == name then some f else later

-- [A-Za-z0-9_-]
abbrev pub is_segment_char : Char → Bool
is_segment_char c =
    (leb b'A' (code c) && leb (code c) b'Z')
    || (leb b'a' (code c) && leb (code c) b'z')
    || (leb b'0' (code c) && leb (code c) b'9')
    || eqb (code c) b'_'
    || eqb (code c) b'-'

unfoldable pub are_segment_chars : String → Bool
are_segment_chars String.[] = true
are_segment_chars (String.◌∷◌ c s) = is_segment_char c && are_segment_chars s

unfoldable pub are_segments : List String → Bool
unfolding are_segment_chars text_length
are_segments [] = true
are_segments (s ∷ rest) =
    are_segment_chars s && leb 1 (text_length s) && leb (text_length s) 64 && are_segments rest

abbrev dot : Char
dot = "."

-- ^metadata(?:\.[A-Za-z0-9_-]{1,64}){1,8}$
unfoldable pub is_metadata_field : String → Bool
unfolding split_first are_segments
is_metadata_field name =
    let (first, segments) = split_first dot name in
    first == "metadata"
    && leb 1 (length segments)
    && leb (length segments) 8
    && are_segments segments

abbrev pub metadata_column : String → String
metadata_column name = "JSON_VALUE(payload, '$." <> name <> "')"

-- From the name in lower case on.
unfoldable pub resolve_name : String → Result FieldDefinition
unfolding field_of is_metadata_field
resolve_name name = elim (field_of name field_table) [
  | some f ↦ ok f
  | none ↦
      if is_metadata_field name
      then ok (of_kind string_kind (metadata_column name))
      else err (wrap "field is not searchable" invalid_query)
]

unfoldable pub resolve_field : String → Result FieldDefinition
unfolding to_lower trim_space resolve_name
resolve_field name = resolve_name (to_lower (trim_space name))
