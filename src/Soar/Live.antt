-- ===== src/Soar/Live.antt =====
-- What an action without an issue keeps to.
use kazutb_siem.Base.{
  subst, some, ℕ, ◌≤◌, String, ◌≡◌, refl, inl, inr, true, false, ◌&&◌, [], arith, ◌==◌, ltb,
}
use kazutb_siem.Base.Int.{ℤ, pos, ltb_ℤ, ◌≤ℤ◌}
use kazutb_siem.Base.Map.{Map}
use kazutb_siem.Soar.Node.{config_string, config_bool, SoarNode, ActionDescriptor}
use kazutb_siem.Soar.Ancestors.{maximum_approval_ancestors}
use kazutb_siem.Soar.Enough.{maximum_approval_ancestors_ends}
use kazutb_siem.Soar.Validate.{reported_lem}
use kazutb_siem.Soar.Actions.{
  descriptor_checks, required_approvals, approvals, is_live, descriptor_issues,
}
use kazutb_siem.Soar.Approved.{Approves, maximum_approval_ancestors_sound}

-- An action that may run.
pub record IsAllowed (nodes : Map SoarNode) (node : SoarNode) (descriptor : ActionDescriptor)
    : Type 0 where
  pub harmless : descriptor.level ≡ 6 → is_live node ≡ false
  pub approved :
      1 ≤ required_approvals descriptor.level
      → (count : ℤ) × ((pos (required_approvals descriptor.level) ≤ℤ count)
          × Approves nodes node.id count)
  pub verified :
      3 ≤ descriptor.level → is_live node ≡ true → config_bool node.config "verify" ≡ true
  pub compensated :
      descriptor.level ≡ 3
      → is_live node ≡ true
      → (descriptor.reversible ≡ true)
        × ((config_string node.config "compensation_action" == "") ≡ false)

approvals_found :
    (nodes : Map SoarNode) (id : String) (count : ℤ)
    → maximum_approval_ancestors id nodes ≡ some count
    → approvals nodes id ≡ count
unfolding approvals
approvals_found nodes id count found = rw (found, approvals) refl

enough_lem :
    (required : ℕ) (count : ℤ)
    → (ltb 0 required && ltb_ℤ count (pos required)) ≡ false
    → 1 ≤ required
    → pos required ≤ℤ count
enough_lem required count h some_required = ground (arith, h, some_required)

approved_lem :
    (nodes : Map SoarNode) (id : String) (required : ℕ)
    → (ltb 0 required && ltb_ℤ (approvals nodes id) (pos required)) ≡ false
    → 1 ≤ required
    → (count : ℤ) × ((pos required ≤ℤ count) × Approves nodes id count)
approved_lem nodes id required h some_required =
    let (count, found) = maximum_approval_ancestors_ends id nodes in
    let enough =
      enough_lem required count
        (subst (λ a. (ltb 0 required && ltb_ℤ a (pos required)) ≡ false)
          (approvals_found nodes id count found) h)
        some_required in
    elim (maximum_approval_ancestors_sound nodes id count found) [
      | inl none_needed ↦
          absurd (omega (arith, subst (λ a. pos required ≤ℤ a) none_needed enough, some_required))
      | inr approves ↦ (count, (enough, approves))
    ]

-- An action of the catalog for which the last loop of Validate adds no issue: is not of level 6 and
-- live; has an approval node among its ancestors that requires enough approvals, one at level 4 and
-- two from level 5; is verified if it is live from level 3; and has a compensation if it is live at
-- level 3.
pub descriptor_issues-IsAllowed :
    (nodes : Map SoarNode) (node : SoarNode) (descriptor : ActionDescriptor) (path : String)
    → descriptor_issues nodes node descriptor path ≡ []
    → IsAllowed nodes node descriptor
unfolding descriptor_issues
descriptor_issues-IsAllowed nodes node descriptor path h =
    let (destructive, (approval, (verification, (compensation, _)))) =
      reported_lem (descriptor_checks nodes node descriptor path) h in
    record {
      harmless = λ e. ground (arith, e, destructive);
      approved = approved_lem nodes node.id (required_approvals descriptor.level) approval;
      verified = λ e live. ground (arith, e, live, verification);
      compensated =
          λ e live. (ground (arith, e, live, compensation), ground (arith, e, live, compensation));
    }
