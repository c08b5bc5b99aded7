-- ===== src/Soar/Ancestors.antt =====
-- maximumApprovalAncestors. The recursive walk is a loop over the dependencies that are still to be
-- visited, those of the innermost call first. Each step takes one of them from the list.
use kazutb_siem.Base.{
  ℕ, zero, suc, ◌+◌, String, true, false, Option, none, some, List, [], ◌∷◌, ◌++◌, ◌==◌,
  if◌then◌else◌, length, has,
}
use kazutb_siem.Base.Int.{ℤ, pos, ltb_ℤ}
use kazutb_siem.Base.Map.{Map, lookup}
use kazutb_siem.Soar.Node.{config_int, SoarNode}

abbrev pub human_approval : String
human_approval = "HUMAN_APPROVAL"

unfoldable pub dependencies : Map SoarNode → String → List String
unfolding lookup
dependencies nodes id = elim (lookup id nodes) [ none ↦ [] | some node ↦ node.depends_on ]

-- if node.Type == core.SOARNodeApproval { ... }
unfoldable pub raised : SoarNode → ℤ → ℤ
unfolding config_int
raised node maximum =
    if node.kind == human_approval
    then elim (config_int node.config "required_approvals") [
      | none ↦ maximum
      | some count ↦ if ltb_ℤ maximum count then count else maximum
    ]
    else maximum

unfoldable pub walk : Map SoarNode → ℕ → List String → List String → ℤ → Option ℤ
unfolding lookup has raised
walk nodes fuel [] visited maximum = some maximum
walk nodes zero (dependency ∷ pending) visited maximum = none
walk nodes (suc fuel) (dependency ∷ pending) visited maximum = elim (has dependency visited) [
  | true ↦ walk nodes fuel pending visited maximum
  | false ↦ elim (lookup dependency nodes) [
    | none ↦ walk nodes fuel pending (dependency ∷ visited) maximum
    | some node ↦
        walk nodes fuel (node.depends_on ++ pending) (dependency ∷ visited) (raised node maximum)
  ]
]

-- The number of dependencies of all nodes.
unfoldable pub total : Map SoarNode → ℕ
total [] = 0
total ((id, node) ∷ rest) = length node.depends_on + total rest

unfoldable pub maximum_approval_ancestors : String → Map SoarNode → Option ℤ
unfolding dependencies walk total
maximum_approval_ancestors id nodes =
    walk nodes (length (dependencies nodes id) + total nodes) (dependencies nodes id) [] (pos 0)
