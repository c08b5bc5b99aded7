-- ===== src/Soar/Actions.antt =====
-- The last loop of Validate, over the actions: its body for one node. `path` is `nodes[index]`.
use kazutb_siem.Base.{
  ◌∷◌, ℕ, String, Bool, ◌&&◌, ◌||◌, not, none, some, List, [], ◌==◌, ltb, leb, eqb, if◌then◌else◌,
}
use kazutb_siem.Base.Int.{ℤ, pos, ltb_ℤ}
use kazutb_siem.Base.Map.{Map, lookup}
use kazutb_siem.Base.Text.{◌<>◌, to_upper}
use kazutb_siem.Soar.Node.{config_string, config_bool, SoarNode, ActionDescriptor, Issue}
use kazutb_siem.Soar.Ancestors.{maximum_approval_ancestors}
use kazutb_siem.Soar.Validate.{error, reported}

-- required
abbrev pub required_approvals : ℕ → ℕ
required_approvals level = if eqb level 4 then 1 else if eqb level 5 || eqb level 6 then 2 else 0

-- The answer of maximumApprovalAncestors.
unfoldable pub approvals : Map SoarNode → String → ℤ
unfolding maximum_approval_ancestors
approvals nodes id = elim (maximum_approval_ancestors id nodes) [ none ↦ pos 0 | some n ↦ n ]

abbrev pub is_live : SoarNode → Bool
is_live node = to_upper (config_string node.config "mode") == "LIVE"

-- The checks of an action of the catalog.
abbrev pub descriptor_checks :
    Map SoarNode → SoarNode → ActionDescriptor → String → List (Bool × Issue)
descriptor_checks nodes node descriptor path =
    (
      eqb descriptor.level 6 && is_live node,
      error "destructive_disabled" (path <> ".config.mode")
          "A6 live actions are disabled for university deployments",
    )
    ∷ (
      ltb 0 (required_approvals descriptor.level)
          && ltb_ℤ (approvals nodes node.id) (pos (required_approvals descriptor.level)),
      error "approval_required" (path <> ".depends_on")
          "action requires an approval ancestor with enough independent approvals",
    )
    ∷ (
      leb 3 descriptor.level && is_live node && not (config_bool node.config "verify"),
      error "verification_required" (path <> ".config.verify")
          "live containment actions require verification",
    )
    ∷ (
      eqb descriptor.level 3
          && is_live node
          && (not descriptor.reversible || config_string node.config "compensation_action" == ""),
      error "compensation_required" (path <> ".config.compensation_action")
          "A3 live containment requires a reversible compensation action",
    )
    ∷ []

unfoldable pub descriptor_issues : Map SoarNode → SoarNode → ActionDescriptor → String → List Issue
unfolding reported approvals config_string config_bool to_upper
descriptor_issues nodes node descriptor path =
    reported (descriptor_checks nodes node descriptor path)

unfoldable pub action_issues : Map ActionDescriptor → Map SoarNode → SoarNode → String → List Issue
unfolding config_string lookup descriptor_issues
action_issues actions nodes node path =
    if not (node.kind == "ACTION")
    then []
    else elim (lookup (config_string node.config "action_type") actions) [
      | none ↦ []
      | some descriptor ↦ descriptor_issues nodes node descriptor path
    ]
