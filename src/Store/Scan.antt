-- ===== src/Store/Scan.antt =====
-- The loop that the List methods share: from the newest identifier to the oldest, at most `limit`
-- objects that pass the filters.
use kazutb_siem.Base.{
  ℕ, zero, suc, String, ◌≡◌, refl, ap, inl, inr, Bool, List, [], ◌∷◌, map, if◌then◌else◌,
  Bool-cases, take, keep,
}

module _ {ℓ} {A : Type ℓ} (read : String → A) (matches : A → Bool) where
  unfoldable pub scan : ℕ → List String → List A
  scan zero ids = []
  scan (suc room) [] = []
  scan (suc room) (i ∷ is) =
      let rest = scan (if matches (read i) then room else suc room) is in
      if matches (read i) then read i ∷ rest else rest

  -- The newest `limit` of the objects that pass, in the order of the walk.
  pub scan-eq-take :
      (room : ℕ) (ids : List String) → scan room ids ≡ take room (keep matches (map read ids))
  unfolding scan keep
  scan-eq-take zero ids = refl
  scan-eq-take (suc room) [] = refl
  scan-eq-take (suc room) (i ∷ is) = elim (Bool-cases (matches (read i))) [
    | inl yes_i ↦ rw yes_i (ap (λ l. read i ∷ l) (scan-eq-take room is))
    | inr no_i ↦ rw no_i (scan-eq-take (suc room) is)
  ]
