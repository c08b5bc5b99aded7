-- ===== src/Soar/Maximum.antt =====
-- maximumApprovalAncestors against the ancestors of the node.
use kazutb_siem.Base.{◌≡◌, ◌⊎◌, String, some}
use kazutb_siem.Base.Int.{ℤ, pos, ◌≤ℤ◌}
use kazutb_siem.Base.Map.{Map, lookup}
use kazutb_siem.Soar.Node.{SoarNode, config_int}
use kazutb_siem.Soar.Ancestors.{maximum_approval_ancestors, human_approval}
use kazutb_siem.Soar.Enough.{maximum_approval_ancestors_ends}
use kazutb_siem.Soar.Approved.{Ancestor, Approves, maximum_approval_ancestors_sound}
use kazutb_siem.Soar.Complete.{maximum_approval_ancestors_complete}

-- The walk ends, whatever the nodes, even if they depend on one another in a cycle. Its answer is 0 or
-- what an approval node among the ancestors requires, and none of them requires more.
pub maximum_approval_ancestors_lem :
    (nodes : Map SoarNode) (id : String)
    → (result : ℤ) × ((maximum_approval_ancestors id nodes ≡ some result)
        × ((result ≡ pos 0) ⊎ Approves nodes id result)
        × ((d : String) (node : SoarNode) (count : ℤ)
            → Ancestor nodes id d
            → lookup d nodes ≡ some node
            → node.kind ≡ human_approval
            → config_int node.config "required_approvals" ≡ some count
            → count ≤ℤ result))
maximum_approval_ancestors_lem nodes id =
    let (result, e) = maximum_approval_ancestors_ends id nodes in
    (
      result,
      (
        e,
        maximum_approval_ancestors_sound nodes id result e,
        λ d node count. maximum_approval_ancestors_complete nodes id d node count result e,
      ),
    )
