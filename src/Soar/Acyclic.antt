-- ===== src/Soar/Acyclic.antt =====
-- A playbook without a detected cycle has an order in which every node follows its dependencies.
use kazutb_siem.Base.{
  ℕ, zero, suc, sym, subst, ◌++◌, Option-cases, text_cases, String, ◌≡◌, inl, inr, true, some, List,
  [], ◌∷◌, arith, Bool-cases, has,
}
use kazutb_siem.Base.Map.{Map, lookup}
use kazutb_siem.Soar.Node.{SoarNode}
use kazutb_siem.Soar.Cycle.{running, calls, search, acyclic, Task, enter, leave}
use kazutb_siem.Soar.Order.{
  Ordered, Within, Awaits, add, add_missing, add_found, entered, entered_before, entered_all,
  Awaits-Within, Awaits-calls, Within-cons,
}

module _ (nodes : Map SoarNode) where
  -- The nodes that the tasks enter or leave.
  abbrev pub ids : List Task → List String
  ids [] = []
  ids (enter d ∷ tasks) = d ∷ ids tasks
  ids (leave d ∷ tasks) = d ∷ ids tasks

  ids_after : (before tasks : List Task) → Within nodes (ids tasks) (ids (before ++ tasks))
  unfolding has
  ids_after [] tasks x h = h
  ids_after (enter d ∷ before) tasks x h = ground (arith, ids_after before tasks x h)
  ids_after (leave d ∷ before) tasks x h = ground (arith, ids_after before tasks x h)

  -- The visited nodes and those of the tasks stand in the order.
  abbrev pub Covers : List Task → List String → List String → Type 0
  Covers tasks visited order =
      Within nodes visited order
      × ((x : String) (node : SoarNode)
          → has x (ids tasks) ≡ true
          → lookup x nodes ≡ some node
          → has x order ≡ true)

  Covers-leave :
      (d : String) (tasks : List Task) (visited order : List String)
      → Covers tasks (d ∷ visited) order
      → Covers (leave d ∷ tasks) visited order
  unfolding has
  Covers-leave d tasks visited order (w, c) = (
    (λ x h. w x (ground (arith, h))),
    λ x node h f. elim (text_cases d x) [
      | inl (same, test) ↦ w x (ground (arith, test))
      | inr (other, test) ↦ c x node (ground (arith, test, h)) f
    ],
  )

  -- A call of a node that is visited, or that does not exist.
  Covers-enter :
      (d : String) (tasks : List Task) (visited order : List String)
      → ((node : SoarNode) → lookup d nodes ≡ some node → has d visited ≡ true)
      → Covers tasks visited order
      → Covers (enter d ∷ tasks) visited order
  unfolding has
  Covers-enter d tasks visited order known (w, c) = (
    w,
    λ x node h f. elim (text_cases d x) [
      | inl (same, test) ↦
          subst (λ y. has y order ≡ true) same
            (w d (known node (subst (λ y. lookup y nodes ≡ some node) (sym same) f)))
      | inr (other, test) ↦ c x node (ground (arith, test, h)) f
    ],
  )

  -- The tasks of a new node.
  Awaits-entered :
      (d : String) (node : SoarNode) (tasks : List Task) (visited : List String)
      → lookup d nodes ≡ some node
      → Awaits nodes tasks (add nodes d visited)
      → Awaits nodes (calls nodes node.depends_on ++ leave d ∷ tasks) visited
  Awaits-entered d node tasks visited found a =
      Awaits-calls nodes node.depends_on (leave d ∷ tasks) visited (
        (λ m x other e k f.
            let same : m ≡ node = ground (arith, e, found) in
            entered_all nodes node.depends_on visited x other
              (subst (λ n. has x n.depends_on ≡ true) same k) f),
        Awaits-Within nodes tasks (d ∷ visited) (d ∷ entered nodes node.depends_on visited)
            (Within-cons nodes d visited (entered nodes node.depends_on visited)
              (entered_before nodes node.depends_on visited))
            (subst (Awaits nodes tasks) (add_found nodes d visited node found) a),
      )

  Within-add_seen :
      (d : String) (visited : List String)
      → has d visited ≡ true
      → Within nodes (add nodes d visited) visited
  unfolding has
  Within-add_seen d visited seen = elim (Option-cases (lookup d nodes)) [
    | inl missing ↦
        subst (λ v. Within nodes v visited) (sym (add_missing nodes d visited missing)) (λ x h. h)
    | inr (node, found) ↦
        subst (λ v. Within nodes v visited) (sym (add_found nodes d visited node found))
          (λ x h. elim (text_cases d x) [
            | inl (same, test) ↦ subst (λ y. has y visited ≡ true) same seen
            | inr (other, test) ↦ ground (arith, test, h)
          ])
  ]

  pub search_lem :
      (fuel : ℕ) (tasks : List Task) (visited order : List String)
      → search nodes fuel tasks visited ≡ some (acyclic order)
      → Awaits nodes tasks visited
      → Ordered nodes visited
      → Ordered nodes order × Covers tasks visited order
  unfolding search has
  search_lem fuel [] visited order e a o =
      let same : visited ≡ order = ground (arith, e) in
      subst (λ r. Ordered nodes r × Covers [] visited r) same
        (o, ((λ x h. h), λ x node h f. absurd (ground (arith, h))))
  search_lem zero (task ∷ tasks) visited order e a o = absurd (ground (arith, e))
  search_lem (suc fuel) (leave d ∷ tasks) visited order e a o =
      let (ordered, covers) = search_lem fuel tasks (d ∷ visited) order e a.1 (a.0, o) in
      (ordered, Covers-leave d tasks visited order covers)
  search_lem (suc fuel) (enter d ∷ tasks) visited order e a o =
      elim (Bool-cases (has d (running tasks))) [
        | inl found ↦ absurd (ground (arith, e, found))
        | inr fresh ↦ elim (Bool-cases (has d visited)) [
          | inl seen ↦
              let (ordered, covers) =
                search_lem fuel tasks visited order (ground (arith, fresh, seen, e))
                  (Awaits-Within nodes tasks (add nodes d visited) visited
                    (Within-add_seen d visited seen) a)
                  o in
              (ordered, Covers-enter d tasks visited order (λ node f. seen) covers)
          | inr new ↦ elim (Option-cases (lookup d nodes)) [
            | inl missing ↦
                let (ordered, covers) =
                  search_lem fuel tasks visited order (ground (arith, fresh, new, missing, e))
                    (subst (Awaits nodes tasks) (add_missing nodes d visited missing) a) o in
                (
                  ordered,
                  Covers-enter d tasks visited order (λ node f. absurd (ground (arith, f, missing)))
                      covers,
                )
            | inr (node, found) ↦
                let (ordered, (w, c)) =
                  search_lem fuel (calls nodes node.depends_on ++ leave d ∷ tasks) visited order
                    (ground (arith, fresh, new, found, e))
                    (Awaits-entered d node tasks visited found a) o in
                (
                  ordered,
                  (
                    w,
                    λ x m h f.
                        c x m (ids_after (calls nodes node.depends_on) (leave d ∷ tasks) x h) f,
                  ),
                )
          ]
        ]
      ]
