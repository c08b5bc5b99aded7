-- ===== src/Sigma/Values.antt =====
-- The values of a decoded YAML document, and the fields of an event: scalarValues, eventFieldValues
-- and nestedValue. How fmt.Sprint writes a value is an argument.
use Prim.Native.Char.{Char}
use kazutb_siem.Base.{String, ◌||◌, Option, none, some, List, [], ◌∷◌, ◌==◌, if◌then◌else◌}
use kazutb_siem.Base.Text.{to_lower, trim_prefix, split_first, fields}
use kazutb_siem.Core.{
  Value, Fields, Items, CanonicalEvent, null, bool, num, text, obj, arr, field, end, cons, nil,
  Result, external, ok, err,
}

prepend : String → Option (List String) → Option (List String)
prepend s none = none
prepend s (some ss) = some (s ∷ ss)

-- The loop of scalarValues.
unfoldable pub scalars : (Value → String) → Items → Option (List String)
unfolding prepend
scalars sprint nil = some []
scalars sprint (cons (text s) rest) = prepend s (scalars sprint rest)
scalars sprint (cons (bool b) rest) = prepend (sprint (bool b)) (scalars sprint rest)
scalars sprint (cons (num n) rest) = prepend (sprint (num n)) (scalars sprint rest)
scalars sprint (cons _ rest) = none

unfoldable pub scalar_values : (Value → String) → Value → Result (List String)
unfolding scalars
scalar_values sprint (arr nil) = err (external "value list is empty")
scalar_values sprint (arr items) = elim (scalars sprint items) [
  | none ↦ err (external "value type is not scalar")
  | some values ↦ ok values
]
scalar_values sprint value = elim (scalars sprint (cons value nil)) [
  | none ↦ err (external "value type is not scalar")
  | some values ↦ ok values
]

-- mapping[key]
unfoldable pub field_at : String → Fields → Option Value
field_at key end = none
field_at key (field name value rest) =
    let later = field_at key rest in if name == key then some value else later

-- The loop of nestedValue over the segments of the path.
unfoldable pub nested : Value → List String → Option Value
unfolding field_at
nested current [] = some current
nested (obj fields) (segment ∷ rest) = elim (field_at segment fields) [
  | none ↦ none
  | some value ↦ nested value rest
]
nested current (segment ∷ rest) = none

abbrev dot : Char
dot = "."

unfoldable pub nested_value : Fields → String → Option Value
unfolding nested split_first
nested_value metadata path =
    let (first, others) = split_first dot path in
    if path == "" then none else nested (obj metadata) (first ∷ others)

unfoldable pub sprint_items : (Value → String) → Items → List String
sprint_items sprint nil = []
sprint_items sprint (cons value rest) = sprint value ∷ sprint_items sprint rest

-- The switch on the type of the value; a nil interface and an empty text have no values.
unfoldable pub value_texts : (Value → String) → Option Value → List String
unfolding sprint_items
value_texts sprint none = []
value_texts sprint (some null) = []
value_texts sprint (some (arr items)) = sprint_items sprint items
value_texts sprint (some (text s)) = if s == "" then [] else s ∷ []
value_texts sprint (some value) = sprint value ∷ []

-- The switch on the name of the field.
unfoldable pub field_value : CanonicalEvent → String → Option Value
unfolding to_lower nested_value trim_prefix
field_value event name =
    let key = to_lower name in
    if key == "event_id"
    then some (text event.id)
    else if key == "category"
    then some (text event.category)
    else if key == "activity_name" || key == "activity"
    then some (text event.activity_name)
    else if key == "source.vendor"
    then some (text event.source.vendor)
    else if key == "source.product"
    then some (text event.source.product)
    else if key == "source.type"
    then some (text event.source.kind)
    else if key == "user.name"
    then some (text event.user.name)
    else if key == "user.is_privileged"
    then some (bool event.user.is_privileged)
    else if key == "device.hostname"
    then some (text event.device.hostname)
    else if key == "device.ip"
    then some (text event.device.ip)
    else if key == "device.criticality"
    then some (num event.device.criticality)
    else if key == "src_endpoint.ip"
    then some (text event.src_endpoint.ip)
    else if key == "src_endpoint.port"
    then some (num event.src_endpoint.port)
    else if key == "dst_endpoint.ip"
    then some (text event.dst_endpoint.ip)
    else if key == "dst_endpoint.port"
    then some (num event.dst_endpoint.port)
    else if key == "process.name"
    then some (text event.process.name)
    else if key == "process.command_line"
    then some (text event.process.command_line)
    else if key == "process.parent_name"
    then some (text event.process.parent_name)
    else if key == "security_result.action"
    then some (text event.security_result.action)
    else if key == "security_result.outcome"
    then some (text event.security_result.outcome)
    else nested_value event.metadata (trim_prefix name "metadata.")

unfoldable pub event_field_values : (Value → String) → CanonicalEvent → String → List String
unfolding field_value value_texts
event_field_values sprint event name = value_texts sprint (field_value event name)
