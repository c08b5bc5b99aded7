-- ===== src/Sigma/Bounds.antt =====
-- The bounds of a correlation rule that compiles.
use kazutb_siem.Base.{
  not, refl, ℕ, ◌/◌, ◌≤◌, ltb, eqb, ◌&&◌, String, ◌≡◌, subst, inl, inr, true, false, ◌||◌, Option,
  none, some, List, [], ◌∷◌, ◌++◌, arith, ◌==◌, if◌then◌else◌, Bool-cases, length, has, Distinct,
}
use kazutb_siem.Base.Text.{trim_space}
use kazutb_siem.Core.{Value, Result-cases, ◌>>=◌, bind_inv, guard_inv, ok_inv, ok}
use kazutb_siem.Store.Laws.{has-snoc, Distinct-snoc}
use kazutb_siem.Correlation.Records.{CorrelationSpec, value_count}
use kazutb_siem.Sigma.Correlation.{
  type_name, compile_correlation, spanned_spec, grouped_spec, counted_spec, is_count, is_temporal,
  rule_references, group_fields, threshold_of, timespan_of, correlation_spec, SigmaCorrelation,
}
use kazutb_siem.Sigma.Values.{scalar_values}

-- References that differ from one another, of which none is empty or the rule itself.
abbrev pub AreReferences : String → List String → Type 0
AreReferences rule_id rules = Distinct rules × (has "" rules ≡ false) × (has rule_id rules ≡ false)

AreReferences-snoc :
    (rule_id raw : String) (found : List String)
    → AreReferences rule_id found
    → (trim_space raw == "" || trim_space raw == rule_id) ≡ false
    → AreReferences rule_id
        (if has (trim_space raw) found then found else found ++ trim_space raw ∷ [])
AreReferences-snoc rule_id raw found h plain = elim (Bool-cases (has (trim_space raw) found)) [
  | inl seen ↦ rw seen h
  | inr new ↦ rw new (
    Distinct-snoc found (trim_space raw) h.0 new,
    ground (arith, plain, h.1, has-snoc "" (trim_space raw) found),
    ground (arith, plain, h.2, has-snoc rule_id (trim_space raw) found),
  )
]

rule_references_lem :
    (rule_id : String) (found raw rules : List String)
    → AreReferences rule_id found
    → rule_references rule_id found raw ≡ ok rules
    → AreReferences rule_id rules
unfolding rule_references
rule_references_lem rule_id found [] rules h e = subst (AreReferences rule_id) (ground (arith, e)) h
rule_references_lem rule_id found (r ∷ rest) rules h e =
    elim (Bool-cases (trim_space r == "" || trim_space r == rule_id)) [
      | inl bad ↦ absurd (ground (arith, e, bad))
      | inr plain ↦
          rule_references_lem rule_id
            (if has (trim_space r) found then found else found ++ trim_space r ∷ []) rest rules
            (AreReferences-snoc rule_id r found h plain) (ground (arith, e, plain))
    ]

timespan_of_lem :
    (d : Option ℕ) (timespan : ℕ)
    → timespan_of d ≡ ok timespan
    → (1 ≤ timespan / 1000000000) × (timespan / 1000000000 ≤ 86400)
unfolding timespan_of
timespan_of_lem none timespan e = absurd (ground (arith, e))
timespan_of_lem (some d) timespan e = (ground (arith, e), ground (arith, e))

threshold_of_lem :
    (kind : String) (gte : ℕ) (rules : List String) (threshold : ℕ)
    → threshold_of kind gte rules ≡ ok threshold
    → (is_count kind ≡ true → (2 ≤ threshold) × (threshold ≤ 1000000))
      × (is_count kind ≡ false → threshold ≡ length rules)
unfolding threshold_of
threshold_of_lem kind gte rules threshold e =
    ((λ c. (ground (arith, e, c), ground (arith, e, c))), λ c. ground (arith, e, c))

-- What the bounds say of a specification.
pub record IsBounded (rule_id : String) (spec : CorrelationSpec) : Type 0 where
  pub references : AreReferences rule_id spec.rules
  pub some_rule : 1 ≤ length spec.rules
  pub few_rules : length spec.rules ≤ 32
  pub two_rules : is_temporal spec.kind ≡ true → 2 ≤ length spec.rules
  pub span_above : 1 ≤ spec.timespan_seconds
  pub span_below : spec.timespan_seconds ≤ 86400
  pub few_groups : length spec.group_by ≤ 8
  pub count_threshold :
      is_count spec.kind ≡ true → (2 ≤ spec.threshold) × (spec.threshold ≤ 1000000)
  pub rule_threshold : is_count spec.kind ≡ false → spec.threshold ≡ length spec.rules

module _ (rule_id kind : String) (document : SigmaCorrelation) (rules : List String) where
  module _ (references : AreReferences rule_id rules) (some_rule : 1 ≤ length rules)
      (few_rules : length rules ≤ 32) (two_rules : is_temporal kind ≡ true → 2 ≤ length rules) where
    counted_spec_lem :
        (timespan : ℕ) (group_by : List String) (threshold : ℕ) (spec : CorrelationSpec)
        → (1 ≤ timespan / 1000000000) × (timespan / 1000000000 ≤ 86400)
        → length group_by ≤ 8
        → threshold_of kind document.gte rules ≡ ok threshold
        → counted_spec kind document rules timespan group_by threshold ≡ ok spec
        → IsBounded rule_id spec
    unfolding counted_spec
    counted_spec_lem timespan group_by threshold spec span groups counted e =
        let limits = threshold_of_lem kind document.gte rules threshold counted in
        subst (IsBounded rule_id)
          (ok_inv
            (guard_inv (kind == value_count && trim_space document.value_field == "") _ _ e).1)
          (record {
            references = references;
            some_rule = some_rule;
            few_rules = few_rules;
            two_rules = two_rules;
            span_above = span.0;
            span_below = span.1;
            few_groups = groups;
            count_threshold = limits.0;
            rule_threshold = limits.1;
          })

    spanned_spec_lem :
        (timespan : ℕ) (spec : CorrelationSpec)
        → (1 ≤ timespan / 1000000000) × (timespan / 1000000000 ≤ 86400)
        → spanned_spec kind document rules timespan ≡ ok spec
        → IsBounded rule_id spec
    unfolding spanned_spec grouped_spec
    spanned_spec_lem timespan spec span e =
        let (group_by, grouped, e₁) =
          bind_inv (group_fields document.group_by) (grouped_spec kind document rules timespan) e in
        let (groups, e₂) =
          guard_inv (ltb 8 (length group_by)) _
            (threshold_of kind document.gte rules
              >>= counted_spec kind document rules timespan group_by)
            e₁ in
        let (threshold, counted, e₃) =
          bind_inv (threshold_of kind document.gte rules)
            (counted_spec kind document rules timespan group_by) e₂ in
        counted_spec_lem timespan group_by threshold spec span (ground (arith, groups)) counted e₃

  correlation_spec_lem :
      (parse_duration : String → Option ℕ) (spec : CorrelationSpec)
      → AreReferences rule_id rules
      → correlation_spec parse_duration kind document rules ≡ ok spec
      → IsBounded rule_id spec
  unfolding correlation_spec
  correlation_spec_lem parse_duration spec references e =
      let duration = timespan_of (parse_duration (trim_space document.timespan)) in
      let (count, e₁) = guard_inv (eqb (length rules) 0 || ltb 32 (length rules)) _ _ e in
      let (two, e₂) =
        guard_inv (is_temporal kind && ltb (length rules) 2) _
          (duration >>= spanned_spec kind document rules) e₁ in
      let (timespan, span, e₃) = bind_inv duration (spanned_spec kind document rules) e₂ in
      spanned_spec_lem references (ground (arith, count)) (ground (arith, count))
        (λ t. ground (arith, two, t)) timespan spec
        (timespan_of_lem (parse_duration (trim_space document.timespan)) timespan span) e₃

-- A correlation that compiles has between 1 and 32 rules, distinct and neither empty nor itself, and
-- at least two if it is temporal; a timespan from one second to one day; at most eight group fields;
-- and a threshold from 2 to 1000000 if it counts, and the number of its rules if not.
pub compile_correlation-IsBounded :
    (sprint : Value → String) (parse_duration : String → Option ℕ) (rule_id : String)
    (document : SigmaCorrelation) (spec : CorrelationSpec)
    → compile_correlation sprint parse_duration rule_id document ≡ ok spec
    → IsBounded rule_id spec
unfolding compile_correlation has
compile_correlation-IsBounded sprint parse_duration rule_id document spec e =
    let kind = type_name document.kind in
    let (known, e₁) = guard_inv (not (is_count kind || is_temporal kind)) _ _ e in
    elim (Result-cases (scalar_values sprint document.rules)) [
      | inl (failure, f) ↦ absurd (ground (arith, e₁, f))
      | inr (raw, f) ↦
          let (rules, refs, e₂) =
            bind_inv (rule_references rule_id [] raw)
              (correlation_spec parse_duration kind document) (ground (arith, e₁, f)) in
          correlation_spec_lem rule_id kind document rules parse_duration spec
            (rule_references_lem rule_id [] raw rules (tt, refl, refl) refs) e₂
    ]
