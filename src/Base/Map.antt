-- ===== src/Base/Map.antt =====
-- Go's `map[string]V` as an association list, and a map of maps.
use kazutb_siem.Base.Tests.{if◌then◌else◌}
use Prim.Native.String.{String}
use mathlib.Core.Path.{◌≡◌, refl}
use mathlib.Core.Bool.{Bool}
use mathlib.Core.Option.{Option, none, some}
use mathlib.Core.List.{List, [], ◌∷◌}
use native.Mathlib.Omega.{arith}
use text.Mathlib.Text.{◌==◌}
use text.Mathlib.TextEquality.{eq_iff}

abbrev pub Map {ℓ} : Type ℓ → Type ℓ
Map V = List (String × V)

module _ {ℓ} {V : Type ℓ} where
  -- m[k] with its `ok`
  unfoldable pub lookup : String → Map V → Option V
  lookup k [] = none
  lookup k ((j, v) ∷ m) = if j == k then some v else lookup k m

  -- m[k] = v
  unfoldable pub insert : String → V → Map V → Map V
  insert k v [] = (k, v) ∷ []
  insert k v ((j, w) ∷ m) = if j == k then (k, v) ∷ m else (j, w) ∷ insert k v m

  -- delete(m, k) for each key that passes the test
  unfoldable pub delete_if : (String → Bool) → Map V → Map V
  delete_if p [] = []
  delete_if p ((j, v) ∷ m) = let rest = delete_if p m in if p j then rest else (j, v) ∷ rest

  unfoldable pub values : Map V → List V
  values [] = []
  values ((j, v) ∷ m) = v ∷ values m

  pub lookup-insert :
      (key other : String) (value : V) (m : Map V)
      → lookup other (insert key value m) ≡ (if key == other then some value else lookup other m)
  unfolding lookup insert
  lookup-insert key other value [] = refl
  lookup-insert key other value ((first, kept) ∷ rest) = ground (
    arith,
    lookup-insert key other value rest,
    eq_iff first key,
    eq_iff first other,
    eq_iff key other,
  )

  pub lookup-delete_if :
      (p : String → Bool) (j : String) (m : Map V)
      → lookup j (delete_if p m) ≡ (if p j then none else lookup j m)
  unfolding lookup delete_if
  lookup-delete_if p j [] = ground arith
  lookup-delete_if p j ((i, w) ∷ m) = ground (arith, eq_iff i j, lookup-delete_if p j m)

  -- The keys, in the order of insertion.
  unfoldable pub keys : Map V → List String
  keys [] = []
  keys ((j, v) ∷ m) = j ∷ keys m

-- m[t] for a map of maps: a missing inner map is Go's nil map, which reads as empty.
module _ {ℓ} {V : Type ℓ} where
  unfoldable pub inner : String → Map (Map V) → Map V
  unfolding lookup
  inner t m = elim (lookup t m) [ none ↦ [] | some n ↦ n ]

  -- m[t][k]
  unfoldable pub lookup₂ : String → String → Map (Map V) → Option V
  unfolding inner
  lookup₂ t k m = lookup k (inner t m)

  -- m[t][k] = v
  unfoldable pub insert₂ : String → String → V → Map (Map V) → Map (Map V)
  unfolding inner insert
  insert₂ t k v m = insert t (insert k v (inner t m)) m

  pub inner-insert :
      (t u : String) (n : Map V) (m : Map (Map V))
      → inner u (insert t n m) ≡ (if t == u then n else inner u m)
  unfolding inner
  inner-insert t u n m = ground (arith, lookup-insert t u n m)

  pub inner_of_missing : (t : String) (m : Map (Map V)) → lookup t m ≡ none → inner t m ≡ []
  unfolding inner
  inner_of_missing t m e = ground (arith, e)

  pub inner-insert₂ :
      (t u k : String) (v : V) (m : Map (Map V))
      → inner u (insert₂ t k v m) ≡ (if t == u then insert k v (inner t m) else inner u m)
  unfolding insert₂
  inner-insert₂ t u k v m = inner-insert t u (insert k v (inner t m)) m

  pub lookup-insert₂ :
      (t u k : String) (v : V) (m : Map (Map V))
      → lookup u (insert₂ t k v m) ≡ (if t == u then some (insert k v (inner t m)) else lookup u m)
  unfolding insert₂
  lookup-insert₂ t u k v m = lookup-insert t u (insert k v (inner t m)) m

  pub lookup₂-insert₂ :
      (t u k j : String) (v : V) (m : Map (Map V))
      → lookup₂ u j (insert₂ t k v m)
        ≡ (if t == u then (if k == j then some v else lookup₂ t j m) else lookup₂ u j m)
  unfolding lookup₂ insert₂
  lookup₂-insert₂ t u k j v m =
      ground (arith, inner-insert t u (insert k v (inner t m)) m, lookup-insert k j v (inner t m))
