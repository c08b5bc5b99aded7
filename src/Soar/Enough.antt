-- ===== src/Soar/Enough.antt =====
-- The walk over the ancestors ends within its fuel.
use kazutb_siem.Base.{
  sym, subst, ap, eqb_comm, ℕ, zero, suc, ◌+◌, ◌≤◌, String, ◌≡◌, refl, inl, inr, false, some, List,
  [], ◌∷◌, ◌++◌, arith, if◌then◌else◌, Bool-cases, Option-cases, text_cases, length, length-append,
  has,
}
use kazutb_siem.Base.Int.{ℤ, pos}
use kazutb_siem.Base.Map.{Map, lookup}
use kazutb_siem.Soar.Node.{SoarNode}
use kazutb_siem.Soar.Ancestors.{dependencies, raised, walk, total, maximum_approval_ancestors}

-- The number of dependencies of the nodes that were not visited.
unfoldable pub weight : Map SoarNode → List String → ℕ
weight [] visited = 0
weight ((id, node) ∷ rest) visited =
    (if has id visited then 0 else length node.depends_on) + weight rest visited

weight_nil : (nodes : Map SoarNode) → weight nodes [] ≡ total nodes
unfolding weight total has
weight_nil [] = refl
weight_nil ((id, node) ∷ rest) = omega (arith, weight_nil rest)

pub weight_visited :
    (nodes : Map SoarNode) (d : String) (visited : List String)
    → weight nodes (d ∷ visited) ≤ weight nodes visited
unfolding weight has
weight_visited [] d visited = omega arith
weight_visited ((id, node) ∷ rest) d visited = ground (arith, weight_visited rest d visited)

pub weight_marked :
    (nodes : Map SoarNode) (d : String) (visited : List String) (node : SoarNode)
    → has d visited ≡ false
    → lookup d nodes ≡ some node
    → weight nodes (d ∷ visited) + length node.depends_on ≤ weight nodes visited
unfolding weight has lookup
weight_marked [] d visited node h e = absurd (ground (arith, e))
weight_marked ((id, n) ∷ rest) d visited node h e = elim (text_cases id d) [
  | inl (same, test) ↦
      let unseen : has id visited ≡ false = subst (λ k. has k visited ≡ false) (sym same) h in
      let found : n ≡ node = ground (arith, test, e) in
      ground (
        arith,
        test,
        unseen,
        eqb_comm id d,
        weight_visited rest d visited,
        ap (λ m. length m.depends_on) found,
      )
  | inr (other, test) ↦
      let later = weight_marked rest d visited node h (ground (arith, test, e)) in
      ground (arith, later)
]

walk-enough :
    (nodes : Map SoarNode) (fuel : ℕ) (pending visited : List String) (maximum : ℤ)
    → length pending + weight nodes visited ≤ fuel
    → (result : ℤ) × (walk nodes fuel pending visited maximum ≡ some result)
unfolding walk
walk-enough nodes fuel [] visited maximum h = (maximum, refl)
walk-enough nodes zero (d ∷ pending) visited maximum h = absurd (omega (arith, h))
walk-enough nodes (suc fuel) (d ∷ pending) visited maximum h = elim (Bool-cases (has d visited)) [
  | inl seen ↦ rw (seen, walk) (walk-enough nodes fuel pending visited maximum (omega (arith, h)))
  | inr new ↦ elim (Option-cases (lookup d nodes)) [
    | inl missing ↦
        rw (new, missing, walk)
          (walk-enough nodes fuel pending (d ∷ visited) maximum
            (omega (arith, h, weight_visited nodes d visited)))
    | inr (node, found) ↦
        rw (new, found, walk)
          (walk-enough nodes fuel (node.depends_on ++ pending) (d ∷ visited) (raised node maximum) (
            omega (
              arith,
              h,
              length-append node.depends_on pending,
              weight_marked nodes d visited node new found,
            )))
  ]
]

-- The walk over the ancestors of a node visits them all within its fuel, whatever the nodes, even
-- if they depend on one another in a cycle.
pub maximum_approval_ancestors_ends :
    (id : String) (nodes : Map SoarNode)
    → (result : ℤ) × (maximum_approval_ancestors id nodes ≡ some result)
unfolding maximum_approval_ancestors
maximum_approval_ancestors_ends id nodes =
    walk-enough nodes (length (dependencies nodes id) + total nodes) (dependencies nodes id) []
      (pos 0) (omega (arith, weight_nil nodes))
