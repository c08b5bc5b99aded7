-- ===== src/Soar/Found.antt =====
-- The search for a cycle ends, and what it finds if it finds none.
use mathlib.Core.List.{reverse, append-nil}
use kazutb_siem.Base.{
  true, ◌||◌, ◌==◌, ap, length-append, ℕ, zero, suc, ◌+◌, ◌≤◌, String, ◌≡◌, refl, sym, subst, inl,
  inr, false, some, List, [], ◌∷◌, ◌++◌, arith, if◌then◌else◌, Bool-cases, Option-cases, text_cases,
  eqb_comm, length, has,
}
use kazutb_siem.Base.Map.{Map, lookup, keys}
use kazutb_siem.Store.Laws.{has-append}
use kazutb_siem.Soc.Lifecycle.{sort_texts, insert_text}
use kazutb_siem.Soar.Node.{SoarNode}
use kazutb_siem.Soar.Enough.{weight, weight_marked}
use kazutb_siem.Soar.Cycle.{
  up_to, detect_cycle, running, exists, calls, search, nodes_and_dependencies, Task, Search, enter,
  leave, cycle, acyclic,
}
use kazutb_siem.Soar.Order.{exists_found, Awaits, Awaits-calls, Ordered}
use kazutb_siem.Soar.Acyclic.{search_lem, ids}

-- The number of nodes that are not in the list.
unfoldable unseen : Map SoarNode → List String → ℕ
unseen [] seen = 0
unseen ((id, node) ∷ rest) seen = (if has id seen then 0 else 1) + unseen rest seen

unseen_less :
    (nodes : Map SoarNode) (d : String) (seen : List String)
    → unseen nodes (d ∷ seen) ≤ unseen nodes seen
unfolding unseen has
unseen_less [] d seen = omega arith
unseen_less ((id, node) ∷ rest) d seen = ground (arith, unseen_less rest d seen)

unseen_marked :
    (nodes : Map SoarNode) (d : String) (seen : List String) (node : SoarNode)
    → has d seen ≡ false
    → lookup d nodes ≡ some node
    → unseen nodes (d ∷ seen) + 1 ≤ unseen nodes seen
unfolding unseen has lookup
unseen_marked [] d seen node h e = absurd (ground (arith, e))
unseen_marked ((id, n) ∷ rest) d seen node h e = elim (text_cases id d) [
  | inl (same, test) ↦
      let fresh : has id seen ≡ false = subst (λ k. has k seen ≡ false) (sym same) h in
      ground (arith, test, fresh, eqb_comm id d, unseen_less rest d seen)
  | inr (other, test) ↦
      let later = unseen_marked rest d seen node h (ground (arith, test, e)) in
      ground (arith, later)
]

-- The measure depends on the members of the list only.
measure : Map SoarNode → List String → ℕ
measure nodes seen = weight nodes seen + unseen nodes seen

measure_same :
    (nodes : Map SoarNode) (xs ys : List String)
    → ((x : String) → has x xs ≡ has x ys)
    → measure nodes xs ≡ measure nodes ys
unfolding measure weight unseen
measure_same [] xs ys h = refl
measure_same ((id, node) ∷ rest) xs ys h = ground (arith, h id, measure_same rest xs ys h)

measure_nil : (nodes : Map SoarNode) → measure nodes [] ≡ nodes_and_dependencies nodes
unfolding measure weight unseen nodes_and_dependencies has
measure_nil [] = refl
measure_nil ((id, node) ∷ rest) = omega (arith, measure_nil rest)

module _ (nodes : Map SoarNode) where
  length-calls : (ds : List String) → length (calls nodes ds) ≤ length ds
  unfolding calls
  length-calls [] = omega arith
  length-calls (d ∷ ds) = elim (Bool-cases (exists nodes d)) [
    | inl e ↦ rw e (omega (arith, length-calls ds))
    | inr e ↦ rw e (omega (arith, length-calls ds))
  ]

  running-calls :
      (ds : List String) (rest : List Task) → running (calls nodes ds ++ rest) ≡ running rest
  unfolding calls running
  running-calls [] rest = refl
  running-calls (d ∷ ds) rest = elim (Bool-cases (exists nodes d)) [
    | inl e ↦ rw e (running-calls ds rest)
    | inr e ↦ rw e (running-calls ds rest)
  ]

  running_nil : (ds : List String) → running (calls nodes ds) ≡ []
  unfolding running
  running_nil ds =
      subst (λ tasks. running tasks ≡ running []) (append-nil (calls nodes ds))
        (running-calls ds [])

  leave_same : (d x : String) (xs ys : List String) → has x (d ∷ (xs ++ ys)) ≡ has x (xs ++ d ∷ ys)
  unfolding has
  leave_same d x xs ys = ground (arith, has-append x xs ys, has-append x xs (d ∷ ys))

  measure_entered :
      (d : String) (node : SoarNode) (seen : List String)
      → has d seen ≡ false
      → lookup d nodes ≡ some node
      → measure nodes (d ∷ seen) + length node.depends_on + 1 ≤ measure nodes seen
  unfolding measure
  measure_entered d node seen h e =
      omega (arith, weight_marked nodes d seen node h e, unseen_marked nodes d seen node h e)

  entered_fits :
      (d : String) (node : SoarNode) (tasks : List Task) (visited : List String) (fuel : ℕ)
      → has d (running tasks) ≡ false
      → has d visited ≡ false
      → lookup d nodes ≡ some node
      → length (enter d ∷ tasks) + measure nodes (running tasks ++ visited) ≤ suc fuel
      → length (calls nodes node.depends_on ++ leave d ∷ tasks)
          + measure nodes (running (calls nodes node.depends_on ++ leave d ∷ tasks) ++ visited)
        ≤ fuel
  unfolding running
  entered_fits d node tasks visited fuel fresh new found h =
      let unseen_before : has d (running tasks ++ visited) ≡ false =
        ground (arith, has-append d (running tasks) visited, fresh, new) in
      omega (
        arith,
        h,
        ap (λ r. measure nodes (r ++ visited)) (running-calls node.depends_on (leave d ∷ tasks)),
        length-append (calls nodes node.depends_on) (leave d ∷ tasks),
        length-calls node.depends_on,
        measure_entered d node (running tasks ++ visited) unseen_before found,
      )

  search_ends :
      (fuel : ℕ) (tasks : List Task) (visited : List String)
      → length tasks + measure nodes (running tasks ++ visited) ≤ fuel
      → (result : Search) × (search nodes fuel tasks visited ≡ some result)
  unfolding search running
  search_ends fuel [] visited h = (acyclic visited, refl)
  search_ends zero (task ∷ tasks) visited h = absurd (omega (arith, h))
  search_ends (suc fuel) (leave d ∷ tasks) visited h = search_ends fuel tasks (d ∷ visited) (
      omega (
        arith,
        h,
        measure_same nodes (d ∷ (running tasks ++ visited)) (running tasks ++ d ∷ visited)
            (λ x. leave_same d x (running tasks) visited),
      ))
  search_ends (suc fuel) (enter d ∷ tasks) visited h = elim (Bool-cases (has d (running tasks))) [
    | inl found ↦ (cycle (reverse (up_to d (running tasks)) ++ d ∷ []), rw (found, search) refl)
    | inr fresh ↦ elim (Bool-cases (has d visited)) [
      | inl seen ↦ rw (fresh, seen, search) (search_ends fuel tasks visited (omega (arith, h)))
      | inr new ↦ elim (Option-cases (lookup d nodes)) [
        | inl missing ↦
            rw (fresh, new, missing, search) (search_ends fuel tasks visited (omega (arith, h)))
        | inr (node, found) ↦
            rw (fresh, new, found, search)
              (search_ends fuel (calls nodes node.depends_on ++ leave d ∷ tasks) visited
                (entered_fits d node tasks visited fuel fresh new found h))
      ]
    ]
  ]

  has-insert_text :
      (x s : String) (ts : List String) → has x (insert_text s ts) ≡ ((s == x) || has x ts)
  unfolding has insert_text
  has-insert_text x s [] = refl
  has-insert_text x s (t ∷ ts) = ground (arith, has-insert_text x s ts)

  has-sort_texts : (x : String) (ss : List String) → has x (sort_texts ss) ≡ has x ss
  unfolding has sort_texts
  has-sort_texts x [] = refl
  has-sort_texts x (s ∷ ss) =
      ground (arith, has-insert_text x s (sort_texts ss), has-sort_texts x ss)

  has-calls :
      (x : String) (node : SoarNode) (ds : List String)
      → lookup x nodes ≡ some node
      → has x ds ≡ true
      → has x (ids nodes (calls nodes ds)) ≡ true
  unfolding has calls exists
  has-calls x node [] found h = absurd (ground (arith, h))
  has-calls x node (d ∷ ds) found h = elim (text_cases d x) [
    | inl (same, test) ↦
        let there =
          exists_found nodes d node (subst (λ y. lookup y nodes ≡ some node) (sym same) found) in
        rw there (ground (arith, test))
    | inr (other, test) ↦
        let later = has-calls x node ds found (ground (arith, test, h)) in
        elim (Bool-cases (exists nodes d)) [
          | inl e ↦ rw e (ground (arith, later))
          | inr e ↦ rw e later
        ]
  ]

has-keys :
    (nodes : Map SoarNode) (x : String) (node : SoarNode)
    → lookup x nodes ≡ some node
    → has x (keys nodes) ≡ true
unfolding has keys lookup
has-keys [] x node e = absurd (ground (arith, e))
has-keys ((id, n) ∷ rest) x node e = elim (Bool-cases (id == x)) [
  | inl same ↦ ground (arith, same)
  | inr other ↦ ground (arith, other, has-keys rest x node (ground (arith, other, e)))
]

-- The search for a cycle ends. If it finds none, there is an order of the nodes, all of them, in which
-- every node stands before those on which it depends.
pub detect_cycle_lem :
    (nodes : Map SoarNode)
    → (result : Search) × ((detect_cycle nodes ≡ some result)
        × ((order : List String)
            → result ≡ acyclic order
            → Ordered nodes order
              × ((x : String) (node : SoarNode) → lookup x nodes ≡ some node → has x order ≡ true)))
unfolding detect_cycle
detect_cycle_lem nodes =
    let ids_of : List String = sort_texts (keys nodes) in
    let tasks : List Task = calls nodes ids_of in
    let fuel : ℕ = length tasks + nodes_and_dependencies nodes in
    let (result, e) = search_ends nodes fuel tasks [] (
      omega
        (arith, ap (λ r. measure nodes (r ++ [])) (running_nil nodes ids_of), measure_nil nodes)) in
    (
      result,
      (
        e,
        λ order found.
            let (ordered, (_, covers)) =
              search_lem nodes fuel tasks [] order
                (subst (λ r. search nodes fuel tasks [] ≡ some r) found e)
                (subst (λ ts. Awaits nodes ts []) (append-nil tasks)
                  (Awaits-calls nodes ids_of [] [] tt))
                tt in
            (
              ordered,
              λ x node there.
                  covers x node
                    (has-calls nodes x node ids_of there (
                      ground
                        (arith, has-sort_texts nodes x (keys nodes), has-keys nodes x node there)))
                    there,
            ),
      ),
    )
