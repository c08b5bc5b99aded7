-- ===== src/Soar/Approved.antt =====
-- The answer of the walk is the number of approvals that an ancestor requires.
use kazutb_siem.Base.{
  ℕ, zero, suc, ◌+◌, String, ◌≡◌, refl, sym, subst, ◌⊎◌, inl, inr, true, some, List, [], ◌∷◌, ◌++◌,
  arith, ◌==◌, eq_iff, eq_refl, Bool-cases, Option-cases, length, All, All-append, has,
}
use kazutb_siem.Base.Int.{ℤ, pos, ltb_ℤ}
use kazutb_siem.Base.Map.{Map, lookup}
use kazutb_siem.Soar.Node.{config_int, SoarNode}
use kazutb_siem.Soar.Ancestors.{
  human_approval, dependencies, raised, walk, total, maximum_approval_ancestors,
}

module _ (nodes : Map SoarNode) where
  -- The node depends on the other one, at once or by others.
  pub data Ancestor (id : String) : String → Type 0 where
    direct : {d : String} → has d (dependencies nodes id) ≡ true → Ancestor id d
    further : {a d : String} → Ancestor id a → has d (dependencies nodes a) ≡ true → Ancestor id d

  -- An approval among the ancestors requires this number.
  abbrev pub Approves : String → ℤ → Type 0
  Approves id count =
      (d : String) × (node : SoarNode) × (Ancestor id d
        × (lookup d nodes ≡ some node)
        × (node.kind ≡ human_approval)
        × (config_int node.config "required_approvals" ≡ some count))

  All-has :
      (P : String → Type 0) (xs : List String) → ((x : String) → has x xs ≡ true → P x) → All P xs
  unfolding has
  All-has P [] h = tt
  All-has P (x ∷ xs) h =
      (h x (ground (arith, eq_refl x)), All-has P xs (λ y k. h y (ground (arith, k))))

  raised_cases :
      (node : SoarNode) (maximum : ℤ)
      → (raised node maximum ≡ maximum)
        ⊎ ((node.kind ≡ human_approval)
            × (config_int node.config "required_approvals" ≡ some (raised node maximum)))
  unfolding raised
  raised_cases node maximum = elim (Bool-cases (node.kind == human_approval)) [
    | inl approval ↦ elim (Option-cases (config_int node.config "required_approvals")) [
      | inl missing ↦ inl (rw (approval, missing) refl)
      | inr (count, found) ↦ elim (Bool-cases (ltb_ℤ maximum count)) [
        | inl more ↦
            inr ((eq_iff node.kind human_approval).0 approval, rw (approval, found, more) refl)
        | inr less ↦ inl (rw (approval, found, less) refl)
      ]
    ]
    | inr other ↦ inl (rw other refl)
  ]

  pub dependencies_found :
      (d : String) (node : SoarNode)
      → lookup d nodes ≡ some node
      → dependencies nodes d ≡ node.depends_on
  unfolding dependencies
  dependencies_found d node found = rw (found, dependencies) refl

  depends :
      (d : String) (node : SoarNode) (x : String)
      → lookup d nodes ≡ some node
      → has x node.depends_on ≡ true
      → has x (dependencies nodes d) ≡ true
  depends d node x found k = subst (λ ds. has x ds ≡ true) (sym (dependencies_found d node found)) k

  walk_sound :
      (id : String) (fuel : ℕ) (pending visited : List String) (maximum result : ℤ)
      → All (Ancestor id) pending
      → (maximum ≡ pos 0) ⊎ Approves id maximum
      → walk nodes fuel pending visited maximum ≡ some result
      → (result ≡ pos 0) ⊎ Approves id result
  unfolding walk
  walk_sound id fuel [] visited maximum result a m e =
      subst (λ r. (r ≡ pos 0) ⊎ Approves id r) (ground (arith, e)) m
  walk_sound id zero (d ∷ pending) visited maximum result a m e = absurd (ground (arith, e))
  walk_sound id (suc fuel) (d ∷ pending) visited maximum result a m e =
      elim (Bool-cases (has d visited)) [
        | inl seen ↦
            walk_sound id fuel pending visited maximum result a.1 m (ground (arith, seen, e))
        | inr new ↦ elim (Option-cases (lookup d nodes)) [
          | inl missing ↦
              walk_sound id fuel pending (d ∷ visited) maximum result a.1 m
                (ground (arith, new, missing, e))
          | inr (node, found) ↦
              walk_sound id fuel (node.depends_on ++ pending) (d ∷ visited) (raised node maximum)
                result
                (All-append (Ancestor id) node.depends_on pending
                  (All-has (Ancestor id) node.depends_on
                    (λ x k. further a.0 (depends d node x found k)))
                  a.1)
                (elim (raised_cases node maximum) [
                  | inl same ↦ subst (λ r. (r ≡ pos 0) ⊎ Approves id r) (sym same) m
                  | inr (approval, count) ↦ inr (d, node, (a.0, found, approval, count))
                ])
                (ground (arith, new, found, e))
        ]
      ]

  -- The answer is 0, or the number of approvals that an approval node among the ancestors requires.
  pub maximum_approval_ancestors_sound :
      (id : String) (result : ℤ)
      → maximum_approval_ancestors id nodes ≡ some result
      → (result ≡ pos 0) ⊎ Approves id result
  unfolding maximum_approval_ancestors
  maximum_approval_ancestors_sound id result e =
      walk_sound id (length (dependencies nodes id) + total nodes) (dependencies nodes id) []
        (pos 0) result (All-has (Ancestor id) (dependencies nodes id) (λ x k. direct k)) (inl refl)
        e
