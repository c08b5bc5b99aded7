-- ===== src/Examples/Hunt.antt =====
-- The properties of hunt requests at concrete inputs.
use kazutb_siem.Base.{
  ◌<◌, ℕ, ◌-◌, ◌*◌, ◌≤◌, String, ◌≡◌, refl, ◌⊎◌, none, some, List, [], ◌∷◌, arith, length,
}
use kazutb_siem.Base.Int.{pos}
use kazutb_siem.Base.Text.{trim_space, to_lower}
use kazutb_siem.Core.{ok, Holds}
use kazutb_siem.Hunt.Request.{
  expression, HuntPredicate, HuntExpression, HuntRequest, no_more, child, no_expression, pointer,
}
use kazutb_siem.Hunt.Fields.{
  field_table, field_of, metadata_column, resolve_field, FieldDefinition, string_kind,
}
use kazutb_siem.Hunt.Validate.{validate_expression}
use kazutb_siem.Hunt.Compile.{compile_node, Argument, integer, string}
use kazutb_siem.Hunt.Marks.{occurrences, IsForeign}
use kazutb_siem.Hunt.Placeholders.{IsMatched}
use kazutb_siem.Hunt.Statement.{compile_node-IsMatched, resolve_field-columns}
use kazutb_siem.Hunt.Masking.{mask, text_of, compile_node-mask}
use kazutb_siem.Hunt.Predicates.{predicates}
use kazutb_siem.Hunt.Valid.{validate_expression-compile_node}
use kazutb_siem.Hunt.Normalize.{lookback_of, normalize_request, validate_template, resolve_template}
use kazutb_siem.Hunt.Ranges.{
  normalize_request-IsRunnable, validate_template-resolve_template, IsRunnable,
}

abbrev leaf : HuntPredicate → HuntExpression
leaf p = expression no_more no_more no_expression (some p)

abbrev severe : HuntExpression
severe = leaf (record { field = "severity"; comparator = "gte"; value = "4"; values = [] })

abbrev listed : HuntExpression
listed = leaf (record {
  field = "metadata.Zone";
  comparator = "IN";
  value = "";
  values = "dmz" ∷ "') OR 1=1 --" ∷ [];
})

-- severity >= 4 and not (metadata.zone in (...))
abbrev query : HuntExpression
query =
    expression (child severe (child (expression no_more no_more (pointer listed) none) no_more))
      no_more no_expression none

abbrev statement : String
statement =
    "(severity >= ?) AND (NOT (lowerUTF8(JSON_VALUE(payload, '$.metadata.zone')) IN (lowerUTF8(?),lowerUTF8(?))))"

abbrev values_of_query : List Argument
values_of_query = integer (pos 4) ∷ string "dmz" ∷ string "') OR 1=1 --" ∷ []

compiled_query : compile_node query ≡ ok (statement, values_of_query)
unfolding compile_node resolve_field
compiled_query = refl

valid_query : validate_expression query 1 0 ≡ ok 2
unfolding validate_expression resolve_field
valid_query = refl

compile_node-IsMatched_example : Holds IsMatched (compile_node query)
compile_node-IsMatched_example = compile_node-IsMatched query

compile_node-mask_example : text_of (compile_node (mask query)) ≡ text_of (compile_node query)
compile_node-mask_example = compile_node-mask query

abbrev zone : FieldDefinition
zone = record { column = "JSON_VALUE(payload, '$.metadata.zone')"; kind = string_kind }

resolve_field-columns_example :
    (field_of (to_lower (trim_space " metadata.Zone")) field_table ≡ some zone)
    ⊎ ((zone.column ≡ metadata_column (to_lower (trim_space " metadata.Zone")))
        × ((c : ℕ) → IsForeign c → occurrences c (to_lower (trim_space " metadata.Zone")) ≡ 0))
unfolding resolve_field
resolve_field-columns_example = resolve_field-columns " metadata.Zone" zone refl

validate_expression-compile_node_example :
    (2 ≡ predicates query)
    × (predicates query ≤ 64)
    × ((sql : String) × (args : List Argument) × ((compile_node query ≡ ok (sql, args))
          × (length args ≤ 100 * predicates query)))
validate_expression-compile_node_example = validate_expression-compile_node query 2 valid_query

-- 2100-01-01 and a request for the last hour, in nanoseconds
abbrev today : ℕ
today = 66268800000000000000

abbrev last_hour : HuntRequest
last_hour = record {
  start = 0;
  end_at = 0;
  lookback_seconds = pos 3600;
  expression = some query;
  limit = pos 0;
  cursor = "";
}

abbrev hour_run : HuntRequest
hour_run = record {
  start = 66268796400000000000;
  end_at = today;
  lookback_seconds = pos 0;
  expression = some query;
  limit = pos 100;
  cursor = "";
}

normalized : normalize_request last_hour today ≡ ok hour_run
unfolding normalize_request validate_expression resolve_field
normalized = refl

normalize_request-IsRunnable_example : IsRunnable today hour_run
normalize_request-IsRunnable_example =
    normalize_request-IsRunnable last_hour today hour_run normalized

saved_hour : validate_template last_hour today ≡ ok last_hour
unfolding validate_template validate_expression resolve_field
saved_hour = refl

validate_template-resolve_template_example :
    (normal : HuntRequest) × (seconds : ℕ) × ((resolve_template last_hour 70000000000000000000
        ≡ ok normal)
      × (normal.end_at ≡ 70000000000000000000)
      × (pos (70000000000000000000 - normal.start) ≡ lookback_of last_hour.lookback_seconds)
      × (last_hour.lookback_seconds ≡ pos seconds)
      × ((70000000000000000000 - normal.start ≡ seconds * 1000000000) ⊎ (9223372036 < seconds)))
validate_template-resolve_template_example =
    validate_template-resolve_template last_hour last_hour today 70000000000000000000 saved_hour
      refl (omega arith)

-- A lookback of 2^55 + 60 seconds counts as one minute.
wrapped_lookback : lookback_of (pos 36028797018964028) ≡ pos 60000000000
unfolding lookback_of
wrapped_lookback = refl
