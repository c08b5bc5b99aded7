-- ===== src/Sigma/Selection.antt =====
-- Selections: compileSelection, compileAlternative, and their evaluation at an event.
use Prim.Native.Char.{Char}
use kazutb_siem.Base.{
  String, Bool, true, false, ◌&&◌, ◌||◌, Option, none, some, List, [], ◌∷◌, ◌==◌, eqb,
  if◌then◌else◌, length,
}
use kazutb_siem.Base.Text.{
  trim_space, to_lower, has_prefix, contains, text_lt, has_suffix, replace_char, split_first,
}
use kazutb_siem.Core.{
  ◌>>=◌, Value, Fields, Items, CanonicalEvent, obj, arr, field, end, cons, nil, Result,
  invalid_rule, wrap, ok, err,
}
use kazutb_siem.Sigma.Glob.{path_match}
use kazutb_siem.Sigma.Values.{scalar_values, event_field_values}

pub record FieldPredicate : Type 0 where
  pub field_name : String  -- field
  pub modifier : String
  pub every : Bool  -- all
  pub expected : List String  -- values

-- A selection is the list of its alternatives, an alternative the list of its predicates.
abbrev pub Alternative : Type 0
Alternative = List FieldPredicate

abbrev pub Selection : Type 0
Selection = List Alternative

-- The switch on a modifier, whose text is trimmed and in lower case.
unfoldable pub apply_modifier : String → FieldPredicate → Result FieldPredicate
apply_modifier modifier predicate =
    if modifier == "contains" || modifier == "startswith" || modifier == "endswith"
    then ok (record predicate { modifier = modifier })
    else if modifier == "all"
    then ok (record predicate { every = true })
    else if modifier == "windash" || modifier == "cased"
    then err (wrap "modifier is not supported" invalid_rule)
    else err (wrap "unknown modifier" invalid_rule)

unfoldable pub apply_modifiers : List String → FieldPredicate → Result FieldPredicate
unfolding apply_modifier to_lower trim_space
apply_modifiers [] predicate = ok predicate
apply_modifiers (m ∷ ms) predicate =
    apply_modifier (to_lower (trim_space m)) predicate >>= λ next. apply_modifiers ms next

abbrev bar : Char
bar = "|"

-- The body of the loop over the mapping.
unfoldable pub compile_predicate : (Value → String) → String → Value → Result FieldPredicate
unfolding split_first trim_space apply_modifiers scalar_values
compile_predicate sprint expression raw =
    let (first, modifiers) = split_first bar expression in
    let plain : FieldPredicate = record {
      field_name = trim_space first;
      modifier = "equals";
      every = false;
      expected = [];
    } in
    if trim_space first == ""
    then err (wrap "selection has an empty field" invalid_rule)
    else apply_modifiers modifiers plain >>= λ predicate. elim (scalar_values sprint raw) [
      | err e ↦ err (wrap "selection field" invalid_rule)
      | ok values ↦ ok (record predicate { expected = values })
    ]

-- sort.Slice by the field
unfoldable pub insert_predicate : FieldPredicate → Alternative → Alternative
unfolding text_lt
insert_predicate p [] = p ∷ []
insert_predicate p (q ∷ qs) =
    let later = insert_predicate p qs in
    if text_lt q.field_name p.field_name then q ∷ later else p ∷ q ∷ qs

unfoldable pub compile_predicates : (Value → String) → Fields → Result Alternative
unfolding compile_predicate insert_predicate
compile_predicates sprint end = ok []
compile_predicates sprint (field expression raw rest) =
    compile_predicate sprint expression raw >>= λ predicate.
    compile_predicates sprint rest >>= λ others. ok (insert_predicate predicate others)

unfoldable pub compile_alternative : (Value → String) → Fields → Result Alternative
unfolding compile_predicates
compile_alternative sprint end = err (wrap "selection mapping is empty" invalid_rule)
compile_alternative sprint mapping = compile_predicates sprint mapping

unfoldable pub compile_alternatives : (Value → String) → Items → Result Selection
unfolding compile_alternative
compile_alternatives sprint nil = ok []
compile_alternatives sprint (cons (obj mapping) rest) =
    compile_alternative sprint mapping >>= λ alternative.
    compile_alternatives sprint rest >>= λ others. ok (alternative ∷ others)
compile_alternatives sprint (cons _ rest) =
    err (wrap "selection alternatives must be mappings" invalid_rule)

unfoldable pub compile_selection : (Value → String) → Value → Result Selection
unfolding compile_alternative compile_alternatives
compile_selection sprint (obj mapping) =
    compile_alternative sprint mapping >>= λ alternative. ok (alternative ∷ [])
compile_selection sprint (arr nil) = err (wrap "selection is empty" invalid_rule)
compile_selection sprint (arr items) = compile_alternatives sprint items
compile_selection sprint _ =
    err (wrap "selection must be a mapping or list of mappings" invalid_rule)

abbrev slash : Char
slash = "/"

abbrev backslash : Char
backslash = "\\"

-- strings.ReplaceAll(s, `\`, "/")
unfoldable pub slashed : String → String
unfolding replace_char
slashed s = replace_char backslash slash s

unfoldable pub match_value : String → String → String → Bool
unfolding to_lower contains has_prefix has_suffix slashed path_match
match_value actual_text expected_text modifier =
    let actual = to_lower actual_text in
    let expected = to_lower expected_text in
    if modifier == "contains"
    then contains actual expected
    else if modifier == "startswith"
    then has_prefix actual expected
    else if modifier == "endswith"
    then has_suffix actual expected
    else if contains expected "*" || contains expected "?"
    then path_match (slashed expected) (slashed actual)
    else actual == expected

-- matchExpected: some value of the event matches.
unfoldable pub match_expected : List String → String → String → Bool
unfolding match_value
match_expected [] modifier expected = false
match_expected (actual ∷ rest) modifier expected =
    match_value actual expected modifier || match_expected rest modifier expected

unfoldable pub match_every : List String → String → List String → Bool
unfolding match_expected
match_every actual modifier [] = true
match_every actual modifier (expected ∷ rest) =
    match_expected actual modifier expected && match_every actual modifier rest

unfoldable pub match_some : List String → String → List String → Bool
unfolding match_expected
match_some actual modifier [] = false
match_some actual modifier (expected ∷ rest) =
    match_expected actual modifier expected || match_some actual modifier rest

module _ (sprint : Value → String) (event : CanonicalEvent) where
  unfoldable pub evaluate_predicate : FieldPredicate → Bool
  unfolding event_field_values match_every match_some
  evaluate_predicate predicate =
      let actual = event_field_values sprint event predicate.field_name in
      if eqb (length actual) 0
      then false
      else if predicate.every
      then match_every actual predicate.modifier predicate.expected
      else match_some actual predicate.modifier predicate.expected

  unfoldable pub evaluate_alternative : Alternative → Bool
  unfolding evaluate_predicate
  evaluate_alternative [] = true
  evaluate_alternative (p ∷ ps) = evaluate_predicate p && evaluate_alternative ps

  unfoldable pub alternative_fields : Alternative → List String
  alternative_fields [] = []
  alternative_fields (p ∷ ps) = p.field_name ∷ alternative_fields ps

  -- The fields of the first alternative that matches.
  unfoldable pub evaluate_selection : Selection → Option (List String)
  unfolding evaluate_alternative alternative_fields
  evaluate_selection [] = none
  evaluate_selection (a ∷ rest) =
      let later = evaluate_selection rest in
      if evaluate_alternative a then some (alternative_fields a) else later
