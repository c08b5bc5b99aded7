-- ===== src/Soc/Closure.antt =====
-- What an incident needs to be closed by a patch.
use kazutb_siem.Base.{
  String, ◌≡◌, refl, ap, ◌∙◌, sym, ◌≢◌, ◌⊎◌, inl, inr, Bool, true, false, ◌&&◌, not, [], ◌∷◌, arith,
  ◌==◌, eq_iff, if◌then◌else◌, ne_of_eqb, text_cases, then_of, else_of, has,
}
use kazutb_siem.Base.Text.{◌<>◌, to_upper}
use kazutb_siem.Core.{Incident, Result, invalid_transition, wrap, ok, err}
use kazutb_siem.Store.Action.{Env}
use kazutb_siem.Soc.Lifecycle.{allowed_transitions, first_non_empty, IncidentPatch}
use kazutb_siem.Soc.Response.{close_details, enter_status, change_incident_status, patch_incident}
use kazutb_siem.Soc.IncidentRules.{patch_incident_moved}

-- The patch or the incident has a disposition that is not blank, and a closure reason.
abbrev pub HasDetails : IncidentPatch → Incident → Type 0
HasDetails patch incident =
    (first_non_empty (patch.disposition ∷ incident.disposition ∷ []) ≢ "")
    × (first_non_empty (patch.closure_reason ∷ incident.closure_reason ∷ []) ≢ "")

close_details_lem :
    (patch : IncidentPatch) (incident detailed : Incident)
    → close_details patch incident ≡ ok detailed
    → HasDetails patch incident
unfolding close_details
close_details_lem patch incident detailed e = (
  λ blank. ground (
    arith,
    e,
    (eq_iff (first_non_empty (patch.disposition ∷ incident.disposition ∷ [])) "").1 blank,
  ),
  λ blank. ground (
    arith,
    e,
    (eq_iff (first_non_empty (patch.closure_reason ∷ incident.closure_reason ∷ [])) "").1 blank,
  ),
)

empty_is_open : (to_upper "" == "CLOSED") ≡ false
unfolding to_upper
empty_is_open = refl

blank_is_not_closed : (s : String) → s ≡ "" → to_upper s ≢ "CLOSED"
blank_is_not_closed s blank closing =
    ne_of_eqb (to_upper "") "CLOSED" empty_is_open (ap to_upper (sym blank) ∙ closing)

module _ (env : Env) (actor : String) where
  change_incident_status-HasDetails :
      (next : String) (patch : IncidentPatch) (incident changed : Incident)
      → next ≡ "CLOSED"
      → change_incident_status env actor next patch incident ≡ ok changed
      → HasDetails patch incident
  unfolding change_incident_status
  change_incident_status-HasDetails next patch incident changed closing e =
      entered
        (not (has next (allowed_transitions incident.status)) && not (incident.status == next))
        (if next == "CLOSED" then close_details patch incident else ok incident)
        (λ d h. close_details_lem patch incident d (
          then_of (next == "CLOSED") (close_details patch incident) (ok incident)
            ((eq_iff next "CLOSED").1 closing) h))
        e
    where
      entered :
          (refused : Bool) (r : Result Incident)
          → ((d : Incident) → r ≡ ok d → HasDetails patch incident)
          → (if refused
              then err (wrap ("incident " <> incident.status <> " -> " <> next) invalid_transition)
              else elim r [
                | err error ↦ err error
                | ok detailed ↦ ok (enter_status env actor next incident.status detailed)
              ])
            ≡ ok changed
          → HasDetails patch incident
      entered true r details h = absurd (ground (arith, h))
      entered false (err error) details h = absurd (ground (arith, h))
      entered false (ok d) details h = details d refl

  -- A patch that closes an incident finds the details that a closed one has to have.
  pub patch_incident-HasDetails :
      (patch : IncidentPatch) (incident changed : Incident)
      → patch_incident env actor patch incident ≡ ok changed
      → (to_upper patch.status ≢ "CLOSED") ⊎ HasDetails patch incident
  patch_incident-HasDetails patch incident changed e =
      elim (text_cases (to_upper patch.status) "CLOSED") [
        | inr (open_status, _) ↦ inl open_status
        | inl (closing, _) ↦
            let (moved, f, _, _) = patch_incident_moved env actor patch incident changed e in
            elim (text_cases patch.status "") [
              | inl (blank, _) ↦ absurd (blank_is_not_closed patch.status blank closing)
              | inr (_, named) ↦ inr (
                  change_incident_status-HasDetails (to_upper patch.status) patch incident moved
                    closing (else_of (patch.status == "") (ok incident) _ named f))
            ]
      ]
