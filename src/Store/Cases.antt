-- ===== src/Store/Cases.antt =====
-- What a call of the store's guarded methods can do: each answer with the state that it leaves.
use kazutb_siem.Base.{
  ℕ, ◌+◌, String, ◌≡◌, ◌≢◌, ◌⊎◌, inl, inr, Bool, true, ◌&&◌, not, some, arith, eq_iff, ltb, eqb,
  Bool-cases, Option-cases,
}
use kazutb_siem.Base.Map.{lookup₂, insert₂}
use kazutb_siem.Core.{
  Alert, Incident, Result-cases, Error, Result, not_found, version_conflict, ok, err,
}
use kazutb_siem.Store.State.{text_at, Memory}
use kazutb_siem.Store.Alerts.{within, dedup_entry, reusable, mutate_alert}
use kazutb_siem.Store.Incidents.{mutate_incident}

module _ (candidate : Alert) (dedup_key : String) (window : ℕ) (m : Memory) where
  -- An alert that is reused is the one that the index names, open, and within the window.
  pub reusable_lem :
      (existing : Alert)
      → reusable candidate dedup_key window m ≡ some existing
      → (lookup₂ candidate.tenant_id
            (text_at (dedup_entry candidate.tenant_id dedup_key) m.dedup)
            m.alerts
          ≡ some existing)
        × (existing.status ≢ "CLOSED")
        × (within candidate.last_seen existing.last_seen window ≡ true)
  unfolding reusable
  reusable_lem existing h =
      (ground arith, ground (arith, eq_iff existing.status "CLOSED"), ground arith)

-- The version that the caller expects is that of the object, or 0, which expects none.
abbrev pub fits_version : ℕ → ℕ → Bool
fits_version expected version = not (ltb 0 expected && not (eqb version expected))

module _ (tenant alert_id : String) (expected now : ℕ) (mutate : Alert → Result Alert)
    (m : Memory) where
  pub mutate_alert_cases :
      ((e : Error) × (mutate_alert tenant alert_id expected mutate now m ≡ (err e, m)))
      ⊎ ((a : Alert) × (b : Alert) × (lookup₂ tenant alert_id m.alerts ≡ some a)
          × (fits_version expected a.version ≡ true)
          × (mutate a ≡ ok b)
          × (mutate_alert tenant alert_id expected mutate now m ≡ (
            ok (record b { version = b.version + 1; updated_at = now }),
            record m {
              alerts =
                  insert₂ tenant alert_id
                    (record b { version = b.version + 1; updated_at = now })
                    m.alerts;
            },
          )))
  unfolding mutate_alert
  mutate_alert_cases = elim (Option-cases (lookup₂ tenant alert_id m.alerts)) [
    | inl missing ↦ inl (not_found, rw (missing, mutate_alert))
    | inr (a, there) ↦ elim (Bool-cases (fits_version expected a.version)) [
      | inl fits ↦ elim (Result-cases (mutate a)) [
        | inl (e, failed) ↦ inl (e, ground (arith, there, fits, failed))
        | inr (b, done) ↦ inr (a, b, there, fits, done, ground (arith, there, fits, done))
      ]
      | inr conflict ↦ inl (version_conflict, ground (arith, there, conflict))
    ]
  ]

module _ (tenant incident_id : String) (expected now : ℕ) (mutate : Incident → Result Incident)
    (m : Memory) where
  pub mutate_incident_cases :
      ((e : Error) × (mutate_incident tenant incident_id expected mutate now m ≡ (err e, m)))
      ⊎ ((a : Incident) × (b : Incident) × (lookup₂ tenant incident_id m.incidents ≡ some a)
          × (fits_version expected a.version ≡ true)
          × (mutate a ≡ ok b)
          × (mutate_incident tenant incident_id expected mutate now m ≡ (
            ok (record b { version = b.version + 1; updated_at = now }),
            record m {
              incidents =
                  insert₂ tenant incident_id
                    (record b { version = b.version + 1; updated_at = now })
                    m.incidents;
            },
          )))
  unfolding mutate_incident
  mutate_incident_cases = elim (Option-cases (lookup₂ tenant incident_id m.incidents)) [
    | inl missing ↦ inl (not_found, rw (missing, mutate_incident))
    | inr (a, there) ↦ elim (Bool-cases (fits_version expected a.version)) [
      | inl fits ↦ elim (Result-cases (mutate a)) [
        | inl (e, failed) ↦ inl (e, ground (arith, there, fits, failed))
        | inr (b, done) ↦ inr (a, b, there, fits, done, ground (arith, there, fits, done))
      ]
      | inr conflict ↦ inl (version_conflict, ground (arith, there, conflict))
    ]
  ]
