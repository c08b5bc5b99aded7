-- ===== src/Soar/Order.antt =====
-- The orders in which nodes follow their dependencies, and what the tasks of the search bring.
use kazutb_siem.Base.{
  false, refl, sym, subst, ◌++◌, Option-cases, text_cases, String, ◌≡◌, inl, inr, true, none, some,
  List, [], ◌∷◌, arith, ◌==◌, Bool-cases, has,
}
use kazutb_siem.Base.Map.{Map, lookup}
use kazutb_siem.Soar.Node.{SoarNode}
use kazutb_siem.Soar.Cycle.{exists, calls, Task, enter, leave}

module _ (nodes : Map SoarNode) where
  -- The dependencies of the node that exist stand in the list.
  abbrev pub Follows : String → List String → Type 0
  Follows d order =
      (node : SoarNode) (x : String) (other : SoarNode)
      → lookup d nodes ≡ some node
      → has x node.depends_on ≡ true
      → lookup x nodes ≡ some other
      → has x order ≡ true

  -- Every node stands before those on which it depends.
  abbrev pub Ordered : List String → Type 0
  Ordered [] = Unit
  Ordered (d ∷ order) = Follows d order × Ordered order

  -- The list with the node, if the node exists.
  abbrev pub add : String → List String → List String
  add d visited = elim (lookup d nodes) [ none ↦ visited | some node ↦ d ∷ visited ]

  -- After these tasks, from the visited nodes, every call that ends has its dependencies visited.
  abbrev pub Awaits : List Task → List String → Type 0
  Awaits [] visited = Unit
  Awaits (enter d ∷ tasks) visited = Awaits tasks (add d visited)
  Awaits (leave d ∷ tasks) visited = Follows d visited × Awaits tasks (d ∷ visited)

  abbrev pub Within : List String → List String → Type 0
  Within xs ys = (x : String) → has x xs ≡ true → has x ys ≡ true

  pub Within-cons : (d : String) (xs ys : List String) → Within xs ys → Within (d ∷ xs) (d ∷ ys)
  unfolding has
  Within-cons d xs ys h x k = elim (Bool-cases (d == x)) [
    | inl e ↦ ground (arith, e)
    | inr e ↦ ground (arith, e, h x (ground (arith, e, k)))
  ]

  pub add_missing : (d : String) (xs : List String) → lookup d nodes ≡ none → add d xs ≡ xs
  add_missing d xs missing = rw (missing, add) refl

  pub add_found :
      (d : String) (xs : List String) (node : SoarNode)
      → lookup d nodes ≡ some node
      → add d xs ≡ d ∷ xs
  add_found d xs node found = rw (found, add) refl

  pub exists_missing : (d : String) → lookup d nodes ≡ none → exists nodes d ≡ false
  unfolding exists
  exists_missing d missing = rw (missing, exists) refl

  pub exists_found :
      (d : String) (node : SoarNode) → lookup d nodes ≡ some node → exists nodes d ≡ true
  unfolding exists
  exists_found d node found = rw (found, exists) refl

  calls_missing :
      (d : String) (ds : List String)
      → lookup d nodes ≡ none
      → calls nodes (d ∷ ds) ≡ calls nodes ds
  unfolding calls
  calls_missing d ds missing = rw (exists_missing d missing, calls) refl

  calls_found :
      (d : String) (ds : List String) (node : SoarNode)
      → lookup d nodes ≡ some node
      → calls nodes (d ∷ ds) ≡ enter d ∷ calls nodes ds
  unfolding calls
  calls_found d ds node found = rw (exists_found d node found, calls) refl

  pub Within-add : (d : String) (xs ys : List String) → Within xs ys → Within (add d xs) (add d ys)
  Within-add d xs ys h = elim (Option-cases (lookup d nodes)) [
    | inl missing ↦ rw (add_missing d xs missing, add_missing d ys missing) h
    | inr (node, found) ↦
        rw (add_found d xs node found, add_found d ys node found) (Within-cons d xs ys h)
  ]

  pub Awaits-Within :
      (tasks : List Task) (xs ys : List String) → Within xs ys → Awaits tasks xs → Awaits tasks ys
  Awaits-Within [] xs ys h a = tt
  Awaits-Within (enter d ∷ tasks) xs ys h a =
      Awaits-Within tasks (add d xs) (add d ys) (Within-add d xs ys h) a
  Awaits-Within (leave d ∷ tasks) xs ys h a = (
    (λ node x other e k f. h x (a.0 node x other e k f)),
    Awaits-Within tasks (d ∷ xs) (d ∷ ys) (Within-cons d xs ys h) a.1,
  )

  -- What the calls will visit.
  abbrev pub entered : List String → List String → List String
  entered [] visited = visited
  entered (d ∷ ds) visited = entered ds (add d visited)

  pub Awaits-calls :
      (ds : List String) (rest : List Task) (visited : List String)
      → Awaits rest (entered ds visited)
      → Awaits (calls nodes ds ++ rest) visited
  unfolding calls
  Awaits-calls [] rest visited h = h
  Awaits-calls (d ∷ ds) rest visited h = elim (Option-cases (lookup d nodes)) [
    | inl missing ↦
        let before = subst (λ v. Awaits rest (entered ds v)) (add_missing d visited missing) h in
        subst (λ c. Awaits (c ++ rest) visited) (sym (calls_missing d ds missing))
          (Awaits-calls ds rest visited before)
    | inr (node, found) ↦
        let before = subst (λ v. Awaits rest (entered ds v)) (add_found d visited node found) h in
        subst (λ c. Awaits (c ++ rest) visited) (sym (calls_found d ds node found))
          (subst (Awaits (calls nodes ds ++ rest)) (sym (add_found d visited node found))
            (Awaits-calls ds rest (d ∷ visited) before))
  ]

  add_before : (d : String) (xs : List String) → Within xs (add d xs)
  unfolding has
  add_before d xs x h = elim (Option-cases (lookup d nodes)) [
    | inl missing ↦ subst (λ v. has x v ≡ true) (sym (add_missing d xs missing)) h
    | inr (node, found) ↦
        subst (λ v. has x v ≡ true) (sym (add_found d xs node found)) (ground (arith, h))
  ]

  pub entered_before :
      (ds : List String) (visited : List String) → Within visited (entered ds visited)
  entered_before [] visited x h = h
  entered_before (d ∷ ds) visited x h =
      entered_before ds (add d visited) x (add_before d visited x h)

  pub entered_all :
      (ds : List String) (visited : List String) (x : String) (other : SoarNode)
      → has x ds ≡ true
      → lookup x nodes ≡ some other
      → has x (entered ds visited) ≡ true
  unfolding has
  entered_all [] visited x other h found = absurd (ground (arith, h))
  entered_all (d ∷ ds) visited x other h found = elim (text_cases d x) [
    | inl (same, test) ↦ entered_before ds (add d visited) x (
        subst (λ v. has x v ≡ true)
          (sym
            (add_found d visited other (subst (λ y. lookup y nodes ≡ some other) (sym same) found)))
          (ground (arith, test)))
    | inr (different, test) ↦ entered_all ds (add d visited) x other (ground (arith, test, h)) found
  ]
