-- ===== src/Examples/Playbook.antt =====
-- The properties of playbooks at concrete inputs.
use kazutb_siem.Base.{List, [], ◌∷◌, has, true, String, ◌≡◌, refl, ◌⊎◌, true, some, List, [], ◌∷◌}
use kazutb_siem.Soar.Cycle.{detect_cycle, Search, cycle, acyclic}
use kazutb_siem.Soar.Order.{Ordered}
use kazutb_siem.Soar.Found.{detect_cycle_lem}
use kazutb_siem.Base.Int.{ℤ, pos, ◌≤ℤ◌}
use kazutb_siem.Base.Map.{Map, lookup}
use kazutb_siem.Core.{text, num, bool, field, end, Fields}
use kazutb_siem.Soar.Node.{default_action_catalog, config_int, RetryPolicy, SoarNode}
use kazutb_siem.Soar.Ancestors.{human_approval, maximum_approval_ancestors}
use kazutb_siem.Soar.Validate.{validate_node}
use kazutb_siem.Soar.Actions.{descriptor_issues}
use kazutb_siem.Soar.Approved.{Ancestor, Approves}
use kazutb_siem.Soar.Maximum.{maximum_approval_ancestors_lem}
use kazutb_siem.Soar.Live.{IsAllowed, descriptor_issues-IsAllowed}

abbrev no_retry : RetryPolicy
no_retry = record { maximum_attempts = pos 0; backoff_seconds = pos 0; maximum_backoff = pos 0 }

abbrev step : String → String → List String → Fields → SoarNode
step id kind depends_on config = record {
  id = id;
  kind = kind;
  name = id;
  depends_on = depends_on;
  timeout_seconds = pos 60;
  retry = no_retry;
  config = config;
}

abbrev block : SoarNode
block = step "block" "ACTION" ("wait" ∷ []) (
    field "action_type" (text "firewall.block_ip")
      (field "mode" (text "live") (field "verify" (bool true) end)))

-- The two nodes before the block depend on one another.
abbrev steps : Map SoarNode
steps =
    ("block", block)
    ∷ ("wait", step "wait" "DELAY" ("approve" ∷ []) (field "duration_seconds" (num (pos 5)) end))
    ∷ (
      "approve",
      step "approve" human_approval ("wait" ∷ []) (field "required_approvals" (num (pos 2)) end),
    )
    ∷ []

descriptor_issues-IsAllowed_example :
    IsAllowed steps block (record { level = 5; reversible = true })
unfolding descriptor_issues
descriptor_issues-IsAllowed_example =
    descriptor_issues-IsAllowed steps block (record { level = 5; reversible = true }) "nodes[0]"
      refl

two_approvals : maximum_approval_ancestors "block" steps ≡ some (pos 2)
unfolding maximum_approval_ancestors
two_approvals = refl

accepted_block : validate_node default_action_catalog block "nodes[0]" ≡ []
unfolding validate_node
accepted_block = refl

maximum_approval_ancestors_lem_example :
    (result : ℤ) × ((maximum_approval_ancestors "block" steps ≡ some result)
      × ((result ≡ pos 0) ⊎ Approves steps "block" result)
      × ((d : String) (node : SoarNode) (count : ℤ)
          → Ancestor steps "block" d
          → lookup d steps ≡ some node
          → node.kind ≡ human_approval
          → config_int node.config "required_approvals" ≡ some count
          → count ≤ℤ result))
maximum_approval_ancestors_lem_example = maximum_approval_ancestors_lem steps "block"

cyclic_steps : detect_cycle steps ≡ some (cycle ("approve" ∷ "wait" ∷ "approve" ∷ []))
unfolding detect_cycle
cyclic_steps = refl

abbrev sound_steps : Map SoarNode
sound_steps =
    ("block", block)
    ∷ ("wait", step "wait" "DELAY" ("approve" ∷ []) (field "duration_seconds" (num (pos 5)) end))
    ∷ ("approve", step "approve" human_approval [] (field "required_approvals" (num (pos 2)) end))
    ∷ []

ordered_steps : detect_cycle sound_steps ≡ some (acyclic ("block" ∷ "wait" ∷ "approve" ∷ []))
unfolding detect_cycle
ordered_steps = refl

detect_cycle_lem_example :
    (result : Search) × ((detect_cycle sound_steps ≡ some result)
      × ((order : List String)
          → result ≡ acyclic order
          → Ordered sound_steps order
            × ((x : String) (node : SoarNode)
                → lookup x sound_steps ≡ some node
                → has x order ≡ true)))
detect_cycle_lem_example = detect_cycle_lem sound_steps
