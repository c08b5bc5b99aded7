-- ===== src/Soar/Complete.antt =====
-- The walk misses no ancestor.
use kazutb_siem.Base.{
  ◌+◌, refl, sym, ◌⊎◌, none, length, ℕ, zero, suc, String, ◌≡◌, subst, inl, inr, true, ◌||◌, some,
  List, [], ◌∷◌, ◌++◌, arith, ◌==◌, eq_iff, Bool-cases, Option-cases, text_cases, has,
}
use kazutb_siem.Base.Int.{ℤ, pos, ltb_ℤ, ◌≤ℤ◌}
use kazutb_siem.Base.Map.{Map, lookup}
use kazutb_siem.Store.Laws.{has-append}
use kazutb_siem.Soar.Node.{config_int, SoarNode}
use kazutb_siem.Soar.Ancestors.{
  total, maximum_approval_ancestors, human_approval, dependencies, raised, walk,
}
use kazutb_siem.Soar.Approved.{Ancestor, direct, further, dependencies_found}

≤ℤ_refl : (a : ℤ) → a ≤ℤ a
≤ℤ_refl a = omega arith

raised_above : (node : SoarNode) (maximum : ℤ) → maximum ≤ℤ raised node maximum
unfolding raised
raised_above node maximum = elim (Bool-cases (node.kind == human_approval)) [
  | inl approval ↦ elim (Option-cases (config_int node.config "required_approvals")) [
    | inl missing ↦ rw (approval, missing) (≤ℤ_refl maximum)
    | inr (count, found) ↦ elim (Bool-cases (ltb_ℤ maximum count)) [
      | inl more ↦ rw (approval, found, more) (ground (arith, more))
      | inr less ↦ rw (approval, found, less) (≤ℤ_refl maximum)
    ]
  ]
  | inr other ↦ rw other (≤ℤ_refl maximum)
]

raised_counts :
    (node : SoarNode) (maximum count : ℤ)
    → node.kind ≡ human_approval
    → config_int node.config "required_approvals" ≡ some count
    → count ≤ℤ raised node maximum
unfolding raised
raised_counts node maximum count approval found =
    rw ((eq_iff node.kind human_approval).1 approval, found)
      (elim (Bool-cases (ltb_ℤ maximum count)) [
        | inl more ↦ rw more (≤ℤ_refl count)
        | inr less ↦ rw less (ground (arith, less))
      ])

module _ (nodes : Map SoarNode) where
  -- What the walk has seen or will see.
  abbrev Covered : List String → List String → String → Type 0
  Covered visited pending d = (has d visited || has d pending) ≡ true

  -- No visited approval requires more than the maximum.
  abbrev IsCounted : List String → ℤ → Type 0
  IsCounted visited maximum =
      (d : String) (node : SoarNode) (count : ℤ)
      → has d visited ≡ true
      → lookup d nodes ≡ some node
      → node.kind ≡ human_approval
      → config_int node.config "required_approvals" ≡ some count
      → count ≤ℤ maximum

  abbrev IsClosed : List String → List String → Type 0
  IsClosed visited pending =
      (a d : String)
      → has a visited ≡ true
      → has d (dependencies nodes a) ≡ true
      → Covered visited pending d

  -- The walk ends with a set of nodes that is closed and counted.
  abbrev Ended : (String → Type 0) → ℤ → Type 0
  Ended Start result =
      (visited : List String) × (IsClosed visited []
        × IsCounted visited result
        × ((d : String) → Start d → has d visited ≡ true))

  seen_lem :
      (visited pending : List String) (d e : String)
      → has d visited ≡ true
      → Covered visited (d ∷ pending) e
      → Covered visited pending e
  unfolding has
  seen_lem visited pending d e seen c = elim (text_cases d e) [
    | inl (same, test) ↦ ground (arith, subst (λ x. has x visited ≡ true) same seen)
    | inr (other, test) ↦ ground (arith, test, c)
  ]

  marked_lem :
      (visited pending others : List String) (d e : String)
      → Covered visited (d ∷ pending) e
      → Covered (d ∷ visited) (others ++ pending) e
  unfolding has
  marked_lem visited pending others d e c = ground (arith, c, has-append e others pending)

  end_lem : (visited : List String) (d : String) → Covered visited [] d → has d visited ≡ true
  unfolding has
  end_lem visited d c = ground (arith, c)

  marked_cases :
      (d a : String) (visited : List String)
      → has a (d ∷ visited) ≡ true
      → (d ≡ a) ⊎ (has a visited ≡ true)
  unfolding has
  marked_cases d a visited h = elim (text_cases d a) [
    | inl (same, test) ↦ inl same
    | inr (other, test) ↦ inr (ground (arith, test, h))
  ]

  dependencies_missing : (d : String) → lookup d nodes ≡ none → dependencies nodes d ≡ []
  unfolding dependencies
  dependencies_missing d missing = rw (missing, dependencies) refl

  -- A node that is visited brings its dependencies.
  marked-IsClosed :
      (visited pending others : List String) (d : String)
      → dependencies nodes d ≡ others
      → IsClosed visited (d ∷ pending)
      → IsClosed (d ∷ visited) (others ++ pending)
  unfolding has
  marked-IsClosed visited pending others d e closed a b h k = elim (marked_cases d a visited h) [
    | inl same ↦
        let of_d : has b others ≡ true =
          subst (λ ds. has b ds ≡ true) e
            (subst (λ x. has b (dependencies nodes x) ≡ true) (sym same) k) in
        ground (arith, of_d, has-append b others pending)
    | inr earlier ↦ marked_lem visited pending others d b (closed a b earlier k)
  ]

  missing-IsCounted :
      (visited : List String) (d : String) (maximum : ℤ)
      → lookup d nodes ≡ none
      → IsCounted visited maximum
      → IsCounted (d ∷ visited) maximum
  missing-IsCounted visited d maximum missing counted a node count h found approval c =
      elim (marked_cases d a visited h) [
        | inl same ↦
            let there = subst (λ x. lookup x nodes ≡ some node) (sym same) found in
            absurd (ground (arith, there, missing))
        | inr earlier ↦ counted a node count earlier found approval c
      ]

  ≤ℤ_trans : (a b c : ℤ) → a ≤ℤ b → b ≤ℤ c → a ≤ℤ c
  ≤ℤ_trans a b c h k = omega (arith, h, k)

  marked-IsCounted :
      (visited : List String) (d : String) (maximum : ℤ) (node : SoarNode)
      → lookup d nodes ≡ some node
      → IsCounted visited maximum
      → IsCounted (d ∷ visited) (raised node maximum)
  marked-IsCounted visited d maximum node found counted a m count h there approval c =
      elim (marked_cases d a visited h) [
        | inl same ↦
            let also = subst (λ x. lookup x nodes ≡ some m) (sym same) there in
            let equal : m ≡ node = ground (arith, also, found) in
            raised_counts node maximum count (subst (λ n. n.kind ≡ human_approval) equal approval)
              (subst (λ n. config_int n.config "required_approvals" ≡ some count) equal c)
        | inr earlier ↦
            ≤ℤ_trans count maximum (raised node maximum)
              (counted a m count earlier there approval c) (raised_above node maximum)
      ]

  walk_complete :
      (Start : String → Type 0) (fuel : ℕ) (pending visited : List String) (maximum result : ℤ)
      → IsClosed visited pending
      → IsCounted visited maximum
      → ((d : String) → Start d → Covered visited pending d)
      → walk nodes fuel pending visited maximum ≡ some result
      → Ended Start result
  unfolding walk
  walk_complete Start fuel [] visited maximum result closed counted start e = (
    visited,
    (
      closed,
      subst (IsCounted visited) (ground (arith, e)) counted,
      λ d s. end_lem visited d (start d s),
    ),
  )
  walk_complete Start zero (d ∷ pending) visited maximum result closed counted start e =
      absurd (ground (arith, e))
  walk_complete Start (suc fuel) (d ∷ pending) visited maximum result closed counted start e =
      elim (Bool-cases (has d visited)) [
        | inl seen ↦
            walk_complete Start fuel pending visited maximum result
              (λ a b h k. seen_lem visited pending d b seen (closed a b h k)) counted
              (λ b s. seen_lem visited pending d b seen (start b s)) (ground (arith, seen, e))
        | inr new ↦ elim (Option-cases (lookup d nodes)) [
          | inl missing ↦
              walk_complete Start fuel pending (d ∷ visited) maximum result
                (marked-IsClosed visited pending [] d (dependencies_missing d missing) closed)
                (missing-IsCounted visited d maximum missing counted)
                (λ b s. marked_lem visited pending [] d b (start b s))
                (ground (arith, new, missing, e))
          | inr (node, found) ↦
              walk_complete Start fuel (node.depends_on ++ pending) (d ∷ visited)
                (raised node maximum) result
                (marked-IsClosed visited pending node.depends_on d
                  (dependencies_found nodes d node found) closed)
                (marked-IsCounted visited d maximum node found counted)
                (λ b s. marked_lem visited pending node.depends_on d b (start b s))
                (ground (arith, new, found, e))
        ]
      ]

  -- Every ancestor is visited.
  path_lem :
      (id : String) (visited : List String)
      → IsClosed visited []
      → ((d : String) → has d (dependencies nodes id) ≡ true → has d visited ≡ true)
      → {d : String} → Ancestor nodes id d
      → has d visited ≡ true
  path_lem id visited closed start {d} (direct h) = start d h
  path_lem id visited closed start {d} (further {a} path h) =
      end_lem visited d (closed a d (path_lem id visited closed start path) h)

  -- No approval node among the ancestors requires more approvals than the answer.
  pub maximum_approval_ancestors_complete :
      (id d : String) (node : SoarNode) (count result : ℤ)
      → maximum_approval_ancestors id nodes ≡ some result
      → Ancestor nodes id d
      → lookup d nodes ≡ some node
      → node.kind ≡ human_approval
      → config_int node.config "required_approvals" ≡ some count
      → count ≤ℤ result
  unfolding maximum_approval_ancestors has
  maximum_approval_ancestors_complete id d node count result e path found approval c =
      let (visited, (closed, counted, start)) =
        walk_complete (λ x. has x (dependencies nodes id) ≡ true)
          (length (dependencies nodes id) + total nodes) (dependencies nodes id) [] (pos 0) result
          (λ a b h k. absurd (ground (arith, h))) (λ a n m h f p q. absurd (ground (arith, h)))
          (λ b s. ground (arith, s)) e in
      counted d node count (path_lem id visited closed start path) found approval c
