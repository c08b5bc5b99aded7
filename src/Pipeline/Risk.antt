-- ===== src/Pipeline/Risk.antt =====
-- The risk of a finding and the events of an alert.
use kazutb_siem.Base.{
  ℕ, ◌≤◌, ◌<◌, String, ◌≡◌, refl, inl, inr, ◌&&◌, not, List, [], arith, ◌==◌, eqb, Bool-cases,
  length, has, Distinct,
}
use kazutb_siem.Base.Int.{pos}
use kazutb_siem.Core.{severity_from_risk, CanonicalEvent, Finding}
use kazutb_siem.Store.State.{append_new}
use kazutb_siem.Store.Texts.{has-append_new, Distinct-append_new}
use kazutb_siem.Pipeline.Detect.{DetectionMatch}
use kazutb_siem.Pipeline.Outcome.{sum_deltas, clamp_risk, make_finding, alert_event_ids, make_alert}

-- A finding's risk score is between 0 and 100; it is the sum of the factors' deltas wherever that
-- sum lies in this range; the severity is the one of the score, and the breakdown has the factors.
pub make_finding-risk :
    (id : String) (now : ℕ) (event : CanonicalEvent) (found : DetectionMatch)
    → ((make_finding id now event found).risk_score ≤ 100)
      × ((n : ℕ)
          → sum_deltas found.factors ≡ pos n
          → n ≤ 100
          → (make_finding id now event found).risk_score ≡ n)
      × ((make_finding id now event found).severity
          ≡ severity_from_risk (make_finding id now event found).risk_score)
      × ((make_finding id now event found).risk_breakdown ≡ found.factors)
unfolding make_finding clamp_risk
make_finding-risk id now event found =
    (ground arith, (λ n e small. ground (arith, e, small)), refl, refl)

-- The events of an alert are never none; no event occurs twice, and the count is their number;
-- where the correlation names an event that is not "", they are the events it names but "".
pub make_alert-events :
    (id : String) (now : ℕ) (event : CanonicalEvent) (finding : Finding) (correlated : List String)
    (discriminator : String)
    → (0 < length (make_alert id now event finding correlated discriminator).0.event_ids)
      × Distinct (make_alert id now event finding correlated discriminator).0.event_ids
      × ((make_alert id now event finding correlated discriminator).0.event_count
          ≡ length (make_alert id now event finding correlated discriminator).0.event_ids)
      × ((e : String)
          → 0 < length (append_new [] correlated)
          → has e (make_alert id now event finding correlated discriminator).0.event_ids
            ≡ (not (e == "") && has e correlated))
unfolding make_alert alert_event_ids has
make_alert-events id now event finding correlated discriminator =
    elim (Bool-cases (eqb (length (append_new [] correlated)) 0)) [
      | inl nothing ↦ (
        rw nothing (ground arith),
        rw nothing (refl, tt),
        refl,
        λ e some_event. absurd (ground (arith, nothing, some_event)),
      )
      | inr something ↦ (
        rw something (ground (arith, something)),
        rw something (Distinct-append_new [] correlated tt),
        refl,
        λ e some_event. rw something (has-append_new e [] correlated),
      )
    ]
