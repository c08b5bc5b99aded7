-- ===== src/Hunt/Compile.antt =====
-- CompileExpression, compileNode and compilePredicate: the SQL text with `?` for each argument, and
-- the arguments.
use kazutb_siem.Base.{
  String, true, false, Option, none, some, List, [], ◌∷◌, ◌++◌, ◌==◌, if◌then◌else◌,
}
use kazutb_siem.Base.Int.{ℤ, parse_int}
use kazutb_siem.Base.Text.{◌<>◌, joined}
use kazutb_siem.Core.{Result, invalid_query, wrap, ok, err, ◌>>=◌}
use kazutb_siem.Hunt.Request.{
  expression, has_children, HuntPredicate, HuntExpression, Expressions, Negated, no_more, child,
  no_expression, pointer,
}
use kazutb_siem.Hunt.Fields.{resolve_field, Kind, FieldDefinition, number_kind}
use kazutb_siem.Hunt.Validate.{comparator_of}

-- interface{}, which holds an int64 or a string.
pub data Argument : Type 0 where
  integer : ℤ → Argument
  string : String → Argument

abbrev pub Compiled : Type 0
Compiled = Result (String × List Argument)

-- The argument for a value; the error of ParseInt is dropped.
unfoldable pub argument : Kind → String → Argument
unfolding parse_int
argument number_kind value = integer (parse_int value).0
argument _ value = string value

unfoldable pub arguments : Kind → List String → List Argument
unfolding argument
arguments kind [] = []
arguments kind (value ∷ rest) = argument kind value ∷ arguments kind rest

-- One placeholder for each argument: placeholders and lowerPlaceholders.
unfoldable pub placeholders : String → List Argument → List String
placeholders mark [] = []
placeholders mark (a ∷ rest) = mark ∷ placeholders mark rest

-- operators[comparator], which is empty for a missing key
unfoldable pub sql_operator : String → String
sql_operator comparator =
    if comparator == "eq"
    then "="
    else if comparator == "neq"
    then "!="
    else if comparator == "gt"
    then ">"
    else if comparator == "gte"
    then ">="
    else if comparator == "lt"
    then "<"
    else if comparator == "lte"
    then "<="
    else ""

-- The text for `in`, by the kind.
unfoldable pub membership : Kind → String → List Argument → String
unfolding placeholders joined
membership number_kind column args = column <> " IN (" <> joined "," (placeholders "?" args) <> ")"
membership _ column args =
    "lowerUTF8(" <> column <> ") IN (" <> joined "," (placeholders "lowerUTF8(?)" args) <> ")"

-- The text for a comparator of one value, by the kind.
unfoldable pub comparison : Kind → String → String → Result String
unfolding sql_operator
comparison number_kind column comparator = ok (column <> " " <> sql_operator comparator <> " ?")
comparison _ column comparator =
    if comparator == "eq"
    then ok ("lowerUTF8(" <> column <> ") = lowerUTF8(?)")
    else if comparator == "neq"
    then ok ("lowerUTF8(" <> column <> ") != lowerUTF8(?)")
    else if comparator == "contains"
    then ok ("positionCaseInsensitiveUTF8(" <> column <> ", ?) > 0")
    else if comparator == "starts_with"
    then ok ("startsWith(lowerUTF8(" <> column <> "), lowerUTF8(?))")
    else if comparator == "ends_with"
    then ok ("endsWith(lowerUTF8(" <> column <> "), lowerUTF8(?))")
    else err (wrap "unsupported comparator" invalid_query)

-- From the resolved field on.
unfoldable pub compile_comparison : FieldDefinition → String → HuntPredicate → Compiled
unfolding arguments membership comparison
compile_comparison definition comparator predicate =
    if comparator == "exists"
    then ok (definition.column <> " != ''", [])
    else if comparator == "not_exists"
    then ok (definition.column <> " = ''", [])
    else if comparator == "in"
    then ok (
      membership definition.kind definition.column (arguments definition.kind predicate.values),
      arguments definition.kind predicate.values,
    )
    else comparison definition.kind definition.column comparator >>= λ sql.
        ok (sql, arguments definition.kind (predicate.value ∷ []))

unfoldable pub compile_predicate : HuntPredicate → Compiled
unfolding resolve_field compile_comparison
compile_predicate predicate = resolve_field predicate.field >>= λ definition.
    compile_comparison definition (comparator_of predicate) predicate

-- The last branch of compileNode.
unfoldable pub compile_leaf : Option HuntPredicate → Compiled
unfolding compile_predicate
compile_leaf none = err (wrap "missing predicate" invalid_query)
compile_leaf (some predicate) = compile_predicate predicate

abbrev pub together : String → List String × List Argument → Compiled
together operator (parts, args) = ok (joined operator parts, args)

abbrev pub negation_of : String × List Argument → Compiled
negation_of (part, args) = ok ("NOT (" <> part <> ")", args)

-- The part of a child, and its arguments, before those of its later siblings.
abbrev pub with_siblings :
    Result (List String × List Argument)
    → String × List Argument
    → Result (List String × List Argument)
with_siblings others (part, child_args) =
    others >>= λ (parts, args). ok (("(" <> part <> ")") ∷ parts, child_args ++ args)

unfoldable mutual
  unfolding compile_leaf joined

  pub compile_node : HuntExpression → Compiled
  compile_node (expression all any negated predicate) = elim (has_children any) [
    | true ↦ compile_children any >>= together " OR "
    | false ↦ elim (has_children all) [
      | true ↦ compile_children all >>= together " AND "
      | false ↦ compile_single negated predicate
    ]
  ]

  -- The loop over the children: the parts and the arguments.
  pub compile_children : Expressions → Result (List String × List Argument)
  compile_children no_more = ok ([], [])
  compile_children (child e es) = compile_node e >>= with_siblings (compile_children es)

  pub compile_single : Negated → Option HuntPredicate → Compiled
  compile_single (pointer e) predicate = compile_node e >>= negation_of
  compile_single no_expression predicate = compile_leaf predicate

unfoldable pub compile_expression : Option HuntExpression → Compiled
unfolding compile_node
compile_expression none = ok ("", [])
compile_expression (some e) = compile_node e
