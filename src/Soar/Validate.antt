-- ===== src/Soar/Validate.antt =====
-- validateNode and dangerousConfig. The issues are returned in the order in which the code adds them;
-- `path` is the one that the code is given. A message is not written out where it holds data.
use kazutb_siem.Base.{
  ◌≡◌, refl, All, arith, ℕ, String, Bool, true, false, ◌&&◌, ◌||◌, not, Option, none, some, List,
  [], ◌∷◌, ◌++◌, ◌==◌, ltb, if◌then◌else◌, has,
}
use kazutb_siem.Base.Int.{ℤ, pos, ltb_ℤ}
use kazutb_siem.Base.Map.{Map, lookup}
use kazutb_siem.Base.Text.{fields, ◌<>◌, trim_space, to_lower, to_upper, byte_length}
use kazutb_siem.Core.{Value, Fields, Items, null, bool, num, text, obj, arr, field, end, cons, nil}
use kazutb_siem.Soar.Node.{config_string, config_int, SoarNode, ActionDescriptor, Issue}
use kazutb_siem.Soar.Ancestors.{human_approval}

abbrev pub error : String → String → String → Issue
error code path message = record { level = "ERROR"; code = code; path = path; message = message }

-- if test { add(issue) }
abbrev pub issue_if : Bool → Issue → List Issue
issue_if test issue = if test then issue ∷ [] else []

-- The issues of the checks whose tests hold, in order.
unfoldable pub reported : List (Bool × Issue) → List Issue
reported [] = []
reported ((test, issue) ∷ rest) = let later = reported rest in if test then issue ∷ later else later

-- If nothing is reported, no test holds.
pub reported_lem :
    (checks : List (Bool × Issue))
    → reported checks ≡ []
    → All (λ (check : Bool × Issue). check.0 ≡ false) checks
unfolding reported
reported_lem [] h = tt
reported_lem ((true, issue) ∷ rest) h = absurd (ground (arith, h))
reported_lem ((false, issue) ∷ rest) h = (refl, reported_lem rest h)

abbrev node_types : List String
node_types =
    "TRIGGER" ∷ "CONDITION" ∷ "ACTION" ∷ "TRANSFORM" ∷ "LOOP" ∷ "PARALLEL" ∷ "DELAY" ∷ "RETRY"
    ∷ human_approval ∷ "SUB_PLAYBOOK" ∷ "MANUAL_TASK" ∷ "WEBHOOK" ∷ "NOTIFICATION" ∷ []

abbrev pub forbidden_keys : List String
forbidden_keys = "script" ∷ "shell" ∷ "command" ∷ "code" ∷ "exec" ∷ []

unfoldable mutual
  unfolding has trim_space to_lower

  pub dangerous_config : Value → Bool
  dangerous_config (obj fields) = dangerous_fields fields
  dangerous_config (arr items) = dangerous_items items
  dangerous_config (null) = false
  dangerous_config (bool b) = false
  dangerous_config (num n) = false
  dangerous_config (text s) = false

  pub dangerous_fields : Fields → Bool
  dangerous_fields end = false
  dangerous_fields (field key nested rest) =
      has (to_lower (trim_space key)) forbidden_keys
      || dangerous_config nested
      || dangerous_fields rest

  pub dangerous_items : Items → Bool
  dangerous_items nil = false
  dangerous_items (cons nested rest) = dangerous_config nested || dangerous_items rest

-- n < 0 || n > maximum
abbrev pub outside : ℕ → ℕ → ℤ → Bool
outside minimum maximum n = ltb_ℤ n (pos minimum) || ltb_ℤ (pos maximum) n

-- !ok || n < minimum || n > maximum
abbrev pub missing_or_outside : ℕ → ℕ → Option ℤ → Bool
missing_or_outside minimum maximum none = true
missing_or_outside minimum maximum (some n) = outside minimum maximum n

-- ok && requested != level
abbrev pub differs : Option ℤ → ℕ → Bool
differs none level = false
differs (some n) level = ltb_ℤ n (pos level) || ltb_ℤ (pos level) n

-- The case of an action.
unfoldable pub action_config_issues : Map ActionDescriptor → Fields → String → List Issue
unfolding config_string config_int lookup to_upper
action_config_issues actions config path =
    let action_type = config_string config "action_type" in
    let mode = to_upper (config_string config "mode") in
    if action_type == ""
    then error "action_type" (path <> ".config.action_type") "action_type is required" ∷ []
    else elim (lookup action_type actions) [
      | none ↦
          error "unknown_action" (path <> ".config.action_type")
            "action is not present in the server-side catalog"
          ∷ []
      | some descriptor ↦
          issue_if (not (mode == "") && not (mode == "DRY_RUN") && not (mode == "LIVE"))
            (error "action_mode" (path <> ".config.mode") "mode must be DRY_RUN or LIVE")
          ++ issue_if (differs (config_int config "risk_level") descriptor.level) (
              error "risk_spoofing" (path <> ".config.risk_level")
                "risk level is assigned by the server action catalog")
    ]

-- switch node.Type
unfoldable pub type_issues : Map ActionDescriptor → SoarNode → String → List Issue
unfolding action_config_issues config_int
type_issues actions node path =
    if node.kind == "ACTION"
    then action_config_issues actions node.config path
    else if node.kind == human_approval
    then issue_if (missing_or_outside 1 2 (config_int node.config "required_approvals")) (
        error "approval_count" (path <> ".config.required_approvals")
          "required_approvals must be 1 or 2")
    else if node.kind == "DELAY"
    then issue_if (missing_or_outside 1 86400 (config_int node.config "duration_seconds")) (
        error "delay" (path <> ".config.duration_seconds")
          "delay must be between 1 second and 24 hours")
    else if node.kind == "LOOP"
    then issue_if (missing_or_outside 1 100 (config_int node.config "maximum_iterations")) (
        error "loop_bound" (path <> ".config.maximum_iterations")
          "loop requires a maximum of 1 to 100 iterations")
    else if node.kind == "WEBHOOK"
    then record {
      level = "WARNING";
      code = "connector_required";
      path = path;
      message = "webhook execution requires a registered connector and secret binding";
    }
      ∷ []
    else []

unfoldable pub validate_node : Map ActionDescriptor → SoarNode → String → List Issue
unfolding has trim_space byte_length dangerous_config type_issues
validate_node actions node path =
    issue_if (not (has node.kind node_types))
      (error "node_type" (path <> ".type") ("unsupported node type " <> node.kind))
    ++ issue_if (trim_space node.name == "" || ltb 160 (byte_length node.name))
        (error "node_name" (path <> ".name") "node name must contain 1 to 160 characters")
    ++ issue_if (outside 0 3600 node.timeout_seconds)
        (error "timeout" (path <> ".timeout_seconds") "timeout must be between 0 and 3600 seconds")
    ++ issue_if
        (outside 0 5 node.retry.maximum_attempts
          || outside 0 3600 node.retry.backoff_seconds
          || outside 0 86400 node.retry.maximum_backoff)
        (error "retry_policy" (path <> ".retry") "retry policy exceeds safe bounds")
    ++ issue_if (dangerous_config (obj node.config)) (
        error "arbitrary_code" (path <> ".config")
          "script, shell, command, code, and exec configuration is forbidden")
    ++ type_issues actions node path
