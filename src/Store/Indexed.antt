-- ===== src/Store/Indexed.antt =====
-- A map of maps with the list of its identifiers in the order of their arrival, for each tenant.
use kazutb_siem.Base.{
  String, ◌≡◌, sym, ap, ◌∙◌, inl, inr, none, some, List, [], ◌∷◌, ◌++◌, arith, eq_iff, text_cases,
  has, Distinct,
}
use kazutb_siem.Base.Map.{Map, insert, inner, lookup₂, insert₂, lookup₂-insert₂}
use kazutb_siem.Store.State.{slice_at}
use kazutb_siem.Store.Laws.{
  slice_at-insert, has-snoc, Distinct-snoc, is_some, has-nil, lookup₂-insert_empty,
  lookup₂-insert_same,
}

module _ {V : Type 0} (tenant_of id_of : V → String) where
  -- Each object stands under its own tenant and identifier, the order lists the identifiers of the
  -- objects and no other, and each once.
  pub record IsIndexed (objects : Map (Map V)) (order : Map (List String)) : Type 0 where
    pub keyed :
        (t k : String) (v : V) → lookup₂ t k objects ≡ some v → (tenant_of v ≡ t) × (id_of v ≡ k)
    pub listed : (t k : String) → has k (slice_at t order) ≡ is_some (lookup₂ t k objects)
    pub distinct : (t : String) → Distinct (slice_at t order)

  pub IsIndexed-add :
      {objects : Map (Map V)} {order : Map (List String)} (v : V)
      → IsIndexed objects order
      → lookup₂ (tenant_of v) (id_of v) objects ≡ none
      → IsIndexed
          (insert₂ (tenant_of v) (id_of v) v objects)
          (insert (tenant_of v) (slice_at (tenant_of v) order ++ id_of v ∷ []) order)
  IsIndexed-add {objects} {order} v h fresh = record {
    keyed = λ t k w e. ground (
      arith,
      e,
      lookup₂-insert₂ (tenant_of v) t (id_of v) k v objects,
      eq_iff (tenant_of v) t,
      eq_iff (id_of v) k,
      h.keyed t k w,
    );
    listed = λ t k. ground (
      arith,
      lookup₂-insert₂ (tenant_of v) t (id_of v) k v objects,
      slice_at-insert (tenant_of v) t (slice_at (tenant_of v) order ++ id_of v ∷ []) order,
      has-snoc k (id_of v) (slice_at (tenant_of v) order),
      eq_iff (tenant_of v) t,
      h.listed t k,
    );
    distinct = λ t. elim (text_cases (tenant_of v) t) [
      | inl e ↦
          rw (slice_at-insert _ t _ order, e.1)
            (Distinct-snoc _ _ (h.distinct _) (h.listed _ _ ∙ ap is_some fresh))
      | inr e ↦ rw (slice_at-insert _ t _ order, e.1) (h.distinct t)
    ];
  }

  -- A write at a key that is there.
  pub IsIndexed-replace :
      {objects : Map (Map V)} {order : Map (List String)} (t k : String) (old v : V)
      → IsIndexed objects order
      → lookup₂ t k objects ≡ some old
      → tenant_of v ≡ t
      → id_of v ≡ k
      → IsIndexed (insert₂ t k v objects) order
  IsIndexed-replace {objects} {order} t k old v h there et ek = record {
    keyed = λ u j w e. ground (
      arith,
      e,
      lookup₂-insert₂ t u k j v objects,
      eq_iff t u,
      eq_iff k j,
      h.keyed u j w,
      et,
      ek,
    );
    listed = λ u j.
        ground
          (arith, lookup₂-insert₂ t u k j v objects, eq_iff t u, eq_iff k j, h.listed u j, there);
    distinct = h.distinct;
  }

  -- The tenant's objects and their order are emptied.
  pub IsIndexed-reset :
      {objects : Map (Map V)} {order : Map (List String)} (t : String)
      → IsIndexed objects order
      → IsIndexed (insert t [] objects) (insert t [] order)
  IsIndexed-reset {objects} {order} t h = record {
    keyed = λ u j w e. ground (arith, e, lookup₂-insert_empty t u j objects, h.keyed u j w);
    listed = λ u j. ground (
      arith,
      lookup₂-insert_empty t u j objects,
      slice_at-insert t u [] order,
      has-nil j,
      h.listed u j,
    );
    distinct = λ u. elim (text_cases t u) [
      | inl e ↦ rw (slice_at-insert t u [] order, e.1) tt
      | inr e ↦ rw (slice_at-insert t u [] order, e.1) (h.distinct u)
    ];
  }

  -- A tenant with no objects is registered.
  pub IsIndexed-register :
      {objects : Map (Map V)} {order : Map (List String)} (t : String)
      → IsIndexed objects order
      → inner t objects ≡ []
      → IsIndexed (insert t [] objects) order
  IsIndexed-register {objects} {order} t h empty = record {
    keyed = λ u j w e. h.keyed u j w (sym (lookup₂-insert_same t u j objects empty) ∙ e);
    listed = λ u j. h.listed u j ∙ ap is_some (sym (lookup₂-insert_same t u j objects empty));
    distinct = h.distinct;
  }
