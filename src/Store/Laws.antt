-- ===== src/Store/Laws.antt =====
-- How the reads of the store's maps see a write, and what ensureTenantLocked leaves in place.
use kazutb_siem.Base.{
  String, ◌≡◌, refl, Bool, true, false, ◌||◌, Option, none, some, List, [], ◌∷◌, ◌++◌, arith, ◌==◌,
  eq_iff, if◌then◌else◌, eqb_comm, has, Distinct,
}
use kazutb_siem.Base.Map.{Map, lookup, insert, lookup-insert, inner, lookup₂, inner-insert}
use kazutb_siem.Store.State.{slice_at, text_at, ensure_tenant, Memory}

pub slice_at-insert {ℓ} :
    {A : Type ℓ} (t u : String) (xs : List A) (m : Map (List A))
    → slice_at u (insert t xs m) ≡ (if t == u then xs else slice_at u m)
unfolding slice_at
slice_at-insert t u xs m = ground (arith, lookup-insert t u xs m)

pub text_at-insert :
    (k j s : String) (m : Map String)
    → text_at j (insert k s m) ≡ (if k == j then s else text_at j m)
unfolding text_at
text_at-insert k j s m = ground (arith, lookup-insert k j s m)

pub has-append : (a : String) (xs ys : List String) → has a (xs ++ ys) ≡ (has a xs || has a ys)
unfolding has
has-append a [] ys = refl
has-append a (x ∷ xs) ys = ground (arith, has-append a xs ys)

pub has-snoc : (a x : String) (xs : List String) → has a (xs ++ x ∷ []) ≡ (has a xs || (x == a))
unfolding has
has-snoc a x [] = ground arith
has-snoc a x (y ∷ xs) = ground (arith, has-snoc a x xs)

pub Distinct-snoc :
    (xs : List String) (a : String) → Distinct xs → has a xs ≡ false → Distinct (xs ++ a ∷ [])
unfolding has
Distinct-snoc [] a d n = (refl, tt)
Distinct-snoc (x ∷ xs) a d n =
    (ground (arith, has-snoc x a xs, d.0, eqb_comm x a), Distinct-snoc xs a d.1 (ground arith))

abbrev pub is_some {ℓ} : {A : Type ℓ} → Option A → Bool
is_some none = false
is_some (some _) = true

pub has-nil : (a : String) → has a [] ≡ false
unfolding has
has-nil a = refl

module _ {ℓ} {V : Type ℓ} where
  pub lookup₂-insert_empty :
      (t u k : String) (m : Map (Map V))
      → lookup₂ u k (insert t [] m) ≡ (if t == u then none else lookup₂ u k m)
  unfolding lookup₂ lookup
  lookup₂-insert_empty t u k m = ground (arith, inner-insert t u [] m)

  pub lookup₂-insert_same :
      (t u k : String) (m : Map (Map V))
      → inner t m ≡ []
      → lookup₂ u k (insert t [] m) ≡ lookup₂ u k m
  unfolding lookup₂ lookup
  lookup₂-insert_same t u k m e = ground (arith, inner-insert t u [] m, eq_iff t u, e)

-- Registering a tenant changes no event, order, index, audit entry or rule.
pub lookup₂-ensure_tenant :
    (t u k : String) (m : Memory) → lookup₂ u k (ensure_tenant t m).events ≡ lookup₂ u k m.events
unfolding ensure_tenant lookup₂ inner
lookup₂-ensure_tenant t u k m = ground (arith, lookup-insert t u [] m.events, eq_iff t u)

pub ensure_tenant_registers :
    (t : String) (m : Memory) → is_some (lookup t (ensure_tenant t m).events) ≡ true
unfolding ensure_tenant
ensure_tenant_registers t m = ground (arith, lookup-insert t t [] m.events, eq_iff t t)
