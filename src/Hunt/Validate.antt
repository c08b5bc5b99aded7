-- ===== src/Hunt/Validate.antt =====
-- validateExpression, validatePredicate and validateValue. The count that the code increments behind
-- a pointer is passed on and returned.
use kazutb_siem.Base.{
  ℕ, suc, ◌+◌, String, Bool, true, false, ◌||◌, not, Option, none, some, List, [], ◌∷◌, ◌==◌, ltb,
  eqb, if◌then◌else◌, length,
}
use kazutb_siem.Base.Int.{parse_int}
use kazutb_siem.Base.Text.{byte_length, trim_space, to_lower}
use kazutb_siem.Core.{Result, invalid_query, external, wrap, ok, err, ◌>>=◌, ◌>>◌}
use kazutb_siem.Hunt.Request.{
  expression, size, has_children, has_pointer, has_predicate, HuntPredicate, HuntExpression,
  Expressions, Negated, no_more, child, no_expression, pointer,
}
use kazutb_siem.Hunt.Fields.{number_kind, resolve_field, Kind, FieldDefinition}

unfoldable pub validate_value : Kind → String → Result (Unit {0})
unfolding byte_length parse_int
validate_value kind value =
    if value == "" || ltb 1024 (byte_length value)
    then err (wrap "predicate values must contain between 1 and 1024 characters" invalid_query)
    else elim kind [
      | number_kind ↦
          if (parse_int value).1
          then ok tt
          else err (wrap "numeric field requires an integer value" invalid_query)
      | _ ↦ ok tt
    ]

unfoldable pub validate_values : Kind → List String → Result (Unit {0})
unfolding validate_value
validate_values kind [] = ok tt
validate_values kind (value ∷ rest) = validate_value kind value >> validate_values kind rest

-- allowed[comparator]
abbrev pub is_allowed : Kind → String → Bool
is_allowed number_kind comparator =
    comparator == "eq"
    || comparator == "neq"
    || comparator == "exists"
    || comparator == "not_exists"
    || comparator == "gt"
    || comparator == "gte"
    || comparator == "lt"
    || comparator == "lte"
    || comparator == "in"
is_allowed _ comparator =
    comparator == "eq"
    || comparator == "neq"
    || comparator == "exists"
    || comparator == "not_exists"
    || comparator == "contains"
    || comparator == "starts_with"
    || comparator == "ends_with"
    || comparator == "in"

abbrev pub comparator_of : HuntPredicate → String
comparator_of predicate = to_lower (trim_space predicate.comparator)

-- From the resolved field on.
unfoldable pub validate_comparison : FieldDefinition → String → HuntPredicate → Result (Unit {0})
unfolding validate_value validate_values
validate_comparison definition comparator predicate =
    if not (is_allowed definition.kind comparator)
    then err (wrap "comparator is not supported for field" invalid_query)
    else if comparator == "exists" || comparator == "not_exists"
    then ok tt
    else if comparator == "in"
    then if eqb (length predicate.values) 0 || ltb 100 (length predicate.values)
      then err (wrap "in requires between 1 and 100 values" invalid_query)
      else validate_values definition.kind predicate.values
    else validate_value definition.kind predicate.value

unfoldable pub validate_predicate : HuntPredicate → Result (Unit {0})
unfolding resolve_field trim_space to_lower validate_comparison
validate_predicate predicate = resolve_field predicate.field >>= λ field.
    validate_comparison field (comparator_of predicate) predicate

abbrev pub one_if : Bool → ℕ
one_if true = 1
one_if false = 0

-- branches
unfoldable pub branches : Expressions → Expressions → Negated → Option HuntPredicate → ℕ
branches all any negated predicate =
    one_if (has_children all)
    + one_if (has_children any)
    + one_if (has_pointer negated)
    + one_if (has_predicate predicate)

-- *count++ and the check of the predicate. The code has no branch for `none`: it dereferences it.
unfoldable pub count_predicate : Option HuntPredicate → ℕ → Result ℕ
unfolding validate_predicate
count_predicate none count = err (external "nil dereference")
count_predicate (some predicate) count =
    if ltb 64 (suc count)
    then err (wrap "query supports at most 64 predicates" invalid_query)
    else validate_predicate predicate >> ok (suc count)

unfoldable mutual
  unfolding branches count_predicate

  pub validate_expression : HuntExpression → ℕ → ℕ → Result ℕ
  validate_expression (expression all any negated predicate) depth count = elim (ltb 8 depth) [
    | true ↦ err (wrap "expression depth exceeds 8" invalid_query)
    | false ↦ elim (eqb (branches all any negated predicate) 1) [
      | false ↦ err (
          wrap "each expression must contain exactly one of all, any, not or predicate"
            invalid_query)
      | true ↦ elim (has_children any) [
        | true ↦ validate_group any depth count
        | false ↦ elim (has_children all) [
          | true ↦ validate_group all depth count
          | false ↦ validate_single negated predicate depth count
        ]
      ]
    ]
  ]

  -- The children of `all` or `any`, of which there are some, if there are few enough.
  pub validate_group : Expressions → ℕ → ℕ → Result ℕ
  validate_group no_more depth count = ok count
  validate_group (child e es) depth count = elim (ltb 32 (size (child e es))) [
    | true ↦ err (wrap "a boolean group supports at most 32 children" invalid_query)
    | false ↦ validate_expression e (suc depth) count >>= λ counted.
        validate_children es (suc depth) counted
  ]

  pub validate_children : Expressions → ℕ → ℕ → Result ℕ
  validate_children no_more depth count = ok count
  validate_children (child e es) depth count =
      validate_expression e depth count >>= λ counted. validate_children es depth counted

  pub validate_single : Negated → Option HuntPredicate → ℕ → ℕ → Result ℕ
  validate_single (pointer e) predicate depth count = validate_expression e (suc depth) count
  validate_single no_expression predicate depth count = count_predicate predicate count
