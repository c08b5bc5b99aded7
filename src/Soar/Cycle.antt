-- ===== src/Soar/Cycle.antt =====
-- detectCycle. The recursive visit is a loop over a list of what is still to be done: a call of visit,
-- or the end of one. The ends in the list are the calls that run, the last first: the code's stack.
use mathlib.Core.List.{reverse}
use kazutb_siem.Base.{
  ℕ, zero, suc, ◌+◌, String, Bool, true, false, Option, none, some, List, [], ◌∷◌, ◌++◌, ◌==◌,
  if◌then◌else◌, length, has,
}
use kazutb_siem.Base.Map.{Map, lookup, keys}
use kazutb_siem.Soc.Lifecycle.{sort_texts}
use kazutb_siem.Soar.Node.{SoarNode}

pub data Task : Type 0 where
  enter : String → Task
  leave : String → Task

-- The code's stack, the last first: the nodes in the state `visiting`.
unfoldable pub running : List Task → List String
running [] = []
running (enter d ∷ tasks) = running tasks
running (leave d ∷ tasks) = d ∷ running tasks

unfoldable pub exists : Map SoarNode → String → Bool
unfolding lookup
exists nodes d = elim (lookup d nodes) [ none ↦ false | some node ↦ true ]

-- The calls for the dependencies that exist.
unfoldable pub calls : Map SoarNode → List String → List Task
unfolding exists
calls nodes [] = []
calls nodes (d ∷ ds) =
    let later = calls nodes ds in if exists nodes d then enter d ∷ later else later

-- stack[index:] up to the top, the last first
unfoldable pub up_to : String → List String → List String
up_to id [] = []
up_to id (x ∷ xs) = let below = up_to id xs in if x == id then x ∷ [] else x ∷ below

-- The cycle, or the nodes in the state `visited`, the last first.
pub data Search : Type 0 where
  cycle : List String → Search
  acyclic : List String → Search

unfoldable pub search : Map SoarNode → ℕ → List Task → List String → Option Search
unfolding running calls up_to has lookup
search nodes fuel [] visited = some (acyclic visited)
search nodes zero (task ∷ tasks) visited = none
search nodes (suc fuel) (leave d ∷ tasks) visited = search nodes fuel tasks (d ∷ visited)
search nodes (suc fuel) (enter d ∷ tasks) visited = elim (has d (running tasks)) [
  | true ↦ some (cycle (reverse (up_to d (running tasks)) ++ d ∷ []))
  | false ↦ elim (has d visited) [
    | true ↦ search nodes fuel tasks visited
    | false ↦ elim (lookup d nodes) [
      | none ↦ search nodes fuel tasks visited
      | some node ↦ search nodes fuel (calls nodes node.depends_on ++ leave d ∷ tasks) visited
    ]
  ]
]

-- The number of nodes and of their dependencies.
unfoldable pub nodes_and_dependencies : Map SoarNode → ℕ
nodes_and_dependencies [] = 0
nodes_and_dependencies ((id, node) ∷ rest) =
    length node.depends_on + 1 + nodes_and_dependencies rest

unfoldable pub detect_cycle : Map SoarNode → Option Search
unfolding calls sort_texts keys search nodes_and_dependencies
detect_cycle nodes =
    search nodes (length (calls nodes (sort_texts (keys nodes))) + nodes_and_dependencies nodes)
      (calls nodes (sort_texts (keys nodes))) []
