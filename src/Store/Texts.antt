-- ===== src/Store/Texts.antt =====
-- appendUnique: what it adds, and that it adds nothing twice.
use kazutb_siem.Base.{
  String, ◌≡◌, inl, inr, ◌&&◌, ◌||◌, not, List, [], ◌∷◌, ◌++◌, arith, ◌==◌, eq_iff, Bool-cases, has,
  Distinct,
}
use kazutb_siem.Store.State.{append_new}
use kazutb_siem.Store.Laws.{has-snoc, Distinct-snoc}

pub has-append_new :
    (a : String) (values xs : List String)
    → has a (append_new values xs) ≡ (has a values || (not (a == "") && has a xs))
unfolding append_new has
has-append_new a values [] = ground arith
has-append_new a values (x ∷ xs) = ground (
  arith,
  has-append_new a values xs,
  has-append_new a (values ++ x ∷ []) xs,
  has-snoc a x values,
  eq_iff x a,
  eq_iff x "",
  eq_iff a "",
)

pub Distinct-append_new :
    (values xs : List String) → Distinct values → Distinct (append_new values xs)
unfolding append_new
Distinct-append_new values [] d = d
Distinct-append_new values (x ∷ xs) d = elim (Bool-cases (not (x == "") && not (has x values))) [
  | inl e ↦
      rw e
        (Distinct-append_new (values ++ x ∷ []) xs (Distinct-snoc values x d (ground (arith, e))))
  | inr e ↦ rw e (Distinct-append_new values xs d)
]
