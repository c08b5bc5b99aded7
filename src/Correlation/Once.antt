-- ===== src/Correlation/Once.antt =====
-- ObserveCorrelation counts an event once, and triggers when the condition starts to hold.
use kazutb_siem.Base.{
  String, ◌≡◌, refl, sym, subst, inl, inr, true, List, [], ◌∷◌, arith, eq_iff, Bool-cases, has,
}
use kazutb_siem.Store.Audit.{Codec}
use kazutb_siem.Correlation.Records.{
  no_evaluation, unique_strings, CorrelationObservation, CorrelationRecord,
}
use kazutb_siem.Correlation.Observe.{
  observation_key, observe_sources, correlate, record_observation, MemoryCorrelationStore,
}

module _ (input : CorrelationObservation) where
  -- Each source's observation is known.
  abbrev Known : List String → List String → Type 0
  Known [] seen = Unit
  Known (s ∷ ss) seen = (has (observation_key input s) seen ≡ true) × Known ss seen

  observe_sources_keeps :
      (ss seen : List String) (key : String)
      → has key seen ≡ true
      → has key (observe_sources input ss seen).1 ≡ true
  unfolding observe_sources has
  observe_sources_keeps [] seen key h = h
  observe_sources_keeps (s ∷ ss) seen key h =
      elim (Bool-cases (has (observation_key input s) seen)) [
        | inl known ↦ rw (known, observe_sources) (observe_sources_keeps ss seen key h)
        | inr fresh ↦
            rw (fresh, observe_sources)
              (observe_sources_keeps ss (observation_key input s ∷ seen) key (ground (arith, h)))
      ]

  observe_sources-Known : (ss seen : List String) → Known ss (observe_sources input ss seen).1
  unfolding observe_sources has
  observe_sources-Known [] seen = tt
  observe_sources-Known (s ∷ ss) seen =
      let key = observation_key input s in
      elim (Bool-cases (has key seen)) [
        | inl known ↦
            rw (known, observe_sources)
              (observe_sources_keeps ss seen key known, observe_sources-Known ss seen)
        | inr fresh ↦
            rw (fresh, observe_sources)
              (
                observe_sources_keeps ss (key ∷ seen) key (ground (arith, eq_iff key key)),
                observe_sources-Known ss (key ∷ seen),
              )
      ]

  observe_sources_again :
      (ss seen : List String) → Known ss seen → observe_sources input ss seen ≡ ([], seen)
  unfolding observe_sources
  observe_sources_again [] seen k = refl
  observe_sources_again (s ∷ ss) seen k =
      rw (k.0, observe_sources) (observe_sources_again ss seen k.1)

  correlate_observation :
      (c : Codec) (new : List CorrelationRecord) (m : MemoryCorrelationStore)
      → (correlate c input new m).1.observation ≡ m.observation
  unfolding correlate
  correlate_observation c new m = ground arith

  record_observation_seen :
      (c : Codec) (m : MemoryCorrelationStore)
      → (record_observation c input m).1.observation
        ≡ (observe_sources input (unique_strings input.source_rule_ids) m.observation).1
  unfolding record_observation
  record_observation_seen c m =
      let (new, seen) =
        observe_sources input (unique_strings input.source_rule_ids) m.observation in
      ground (arith, correlate_observation c new (record m { observation = seen }))

  -- Observing the same event a second time counts nothing: the answer is the empty evaluation,
  -- which has not triggered, and the store stays as the first observation left it.
  pub record_observation_again :
      (c : Codec) (m : MemoryCorrelationStore)
      → record_observation c input (record_observation c input m).1
        ≡ (no_evaluation, (record_observation c input m).1)
  unfolding record_observation
  record_observation_again c m =
      let n = (record_observation c input m).1 in
      let sources = unique_strings input.source_rule_ids in
      let known =
        subst (Known sources) (sym (record_observation_seen c m))
          (observe_sources-Known sources m.observation) in
      rw (observe_sources_again sources n.observation known) refl
