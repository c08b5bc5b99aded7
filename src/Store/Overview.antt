-- ===== src/Store/Overview.antt =====
-- Overview: the counters of the dashboard. The response's constant parts are left out. Go walks its
-- maps in no fixed order; the counters do not depend on it.
use kazutb_siem.Base.{
  ℕ, ◌+◌, String, Bool, ◌&&◌, not, none, some, List, [], ◌∷◌, ◌==◌, ltb, if◌then◌else◌, length,
  keep,
}
use kazutb_siem.Base.Map.{Map, lookup, insert, values, inner}
use kazutb_siem.Core.{
  Severity, severity_critical, severity_high, severity_medium, severity_low, CanonicalEvent, Alert,
  Incident,
}
use kazutb_siem.Store.State.{Memory}

pub record Overview : Type 0 where
  pub events_24h : ℕ
  pub open_alerts : ℕ
  pub critical_alerts : ℕ
  pub unassigned_alerts : ℕ
  pub active_incidents : ℕ
  pub severity_distribution : List (Severity × ℕ)
  pub top_rules : List (String × ℕ)

-- 24 hours in nanoseconds
abbrev pub day : ℕ
day = 86400000000000

unfoldable pub count {ℓ} : {A : Type ℓ} → (A → Bool) → List A → ℕ
unfolding keep
count p xs = length (keep p xs)

unfoldable pub is_open : Alert → Bool
is_open alert = not (alert.status == "CLOSED")

-- counts[k]++
unfoldable pub increment : String → Map ℕ → Map ℕ
unfolding lookup insert
increment k m = insert k (elim (lookup k m) [ none ↦ 1 | some n ↦ n + 1 ]) m

unfoldable pub count_rules : List Alert → Map ℕ → Map ℕ
unfolding is_open increment
count_rules [] counts = counts
count_rules (a ∷ rest) counts =
    count_rules rest (if is_open a then increment a.rule.title counts else counts)

unfoldable pub insert_count : String × ℕ → List (String × ℕ) → List (String × ℕ)
insert_count (t, n) [] = (t, n) ∷ []
insert_count (t, n) ((u, k) ∷ rest) =
    let later = insert_count (t, n) rest in
    if ltb n k then (u, k) ∷ later else (t, n) ∷ (u, k) ∷ rest

-- sort.Slice by the count, the largest first
unfoldable pub by_count : List (String × ℕ) → List (String × ℕ)
unfolding insert_count
by_count [] = []
by_count (p ∷ rest) = insert_count p (by_count rest)

unfoldable pub overview : String → ℕ → Memory → Overview
unfolding inner values count count_rules by_count
overview tenant now m =
    let alerts = values (inner tenant m.alerts) in
    let of_severity =
      λ (s : Severity). count (λ (a : Alert). is_open a && a.severity == s) alerts in
    record {
      events_24h =
          count (λ (e : CanonicalEvent). ltb now (e.ingest_time + day))
            (values (inner tenant m.events));
      open_alerts = count is_open alerts;
      critical_alerts = of_severity severity_critical;
      unassigned_alerts = count (λ (a : Alert). is_open a && a.assignee == "") alerts;
      active_incidents =
          count (λ (i : Incident). not (i.status == "CLOSED")) (values (inner tenant m.incidents));
      severity_distribution =
          (severity_critical, of_severity severity_critical)
          ∷ (severity_high, of_severity severity_high)
          ∷ (severity_medium, of_severity severity_medium)
          ∷ (severity_low, of_severity severity_low)
          ∷ [];
      top_rules = by_count (count_rules alerts []);
    }
