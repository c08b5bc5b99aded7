-- ===== src/Soc/Invariants.antt =====
-- The changes that the service makes keep the tenant and the identifier, and so a well-formed store.
use kazutb_siem.Base.{
  ℕ, String, ◌≡◌, refl, inl, inr, Bool, true, false, ◌&&◌, not, arith, ◌==◌, if◌then◌else◌,
  Bool-cases, else_of, has,
}
use kazutb_siem.Core.{Incident, Result-cases, Result, invalid_transition, wrap, ok, err}
use kazutb_siem.Store.Action.{Env}
use kazutb_siem.Store.Audit.{Codec}
use kazutb_siem.Store.Safe.{IsSafe, mutate_alert-IsSafe, mutate_incident-IsSafe, audited-IsSafe}
use kazutb_siem.Soc.Lifecycle.{allowed_transitions, AlertPatch, IncidentPatch}
use kazutb_siem.Soc.Triage.{
  change_alert_status, patch_alert_fields, patch_alert, triage_entry, update_alert,
}
use kazutb_siem.Soc.Response.{
  note, close_details, enter_status, change_incident_status, assign_incident, patch_incident_fields,
  patch_incident, update_entry, update_incident,
}
use kazutb_siem.Base.Text.{◌<>◌, to_upper}
use kazutb_siem.Store.Repository
use kazutb_siem.Store.Reachable.{KeepsAlert, KeepsIncident}

patch_alert-KeepsAlert : (now : ℕ) (patch : AlertPatch) → KeepsAlert (patch_alert now patch)
unfolding patch_alert patch_alert_fields change_alert_status
patch_alert-KeepsAlert now patch a b e = (ground (arith, e), ground (arith, e))

module _ (env : Env) (actor : String) (patch : IncidentPatch) where
  assign_incident_keeps :
      (a : Incident)
      → ((assign_incident env actor patch a).tenant_id ≡ a.tenant_id)
        × ((assign_incident env actor patch a).id ≡ a.id)
  unfolding assign_incident note
  assign_incident_keeps a = (ground arith, ground arith)

  patch_incident_fields_keeps :
      (a : Incident)
      → ((patch_incident_fields env actor patch a).tenant_id ≡ a.tenant_id)
        × ((patch_incident_fields env actor patch a).id ≡ a.id)
  unfolding patch_incident_fields note
  patch_incident_fields_keeps a = (ground arith, ground arith)

  enter_status_keeps :
      (status previous : String) (a : Incident)
      → ((enter_status env actor status previous a).tenant_id ≡ a.tenant_id)
        × ((enter_status env actor status previous a).id ≡ a.id)
  unfolding enter_status note
  enter_status_keeps status previous a = (ground arith, ground arith)

  close_details_keeps :
      (close : Bool) (a d : Incident)
      → (if close then close_details patch a else ok a) ≡ ok d
      → (d.tenant_id ≡ a.tenant_id) × (d.id ≡ a.id)
  unfolding close_details
  close_details_keeps close a d e = (ground (arith, e), ground (arith, e))

  change_incident_status-KeepsIncident :
      (status : String) → KeepsIncident (change_incident_status env actor status patch)
  unfolding change_incident_status
  change_incident_status-KeepsIncident status a b e =
      entered (not (has status (allowed_transitions a.status)) && not (a.status == status))
        (if status == "CLOSED" then close_details patch a else ok a)
        (close_details_keeps (status == "CLOSED") a) e
    where
      entered :
          (refused : Bool) (r : Result Incident)
          → ((d : Incident) → r ≡ ok d → (d.tenant_id ≡ a.tenant_id) × (d.id ≡ a.id))
          → (if refused
              then err (wrap ("incident " <> a.status <> " -> " <> status) invalid_transition)
              else elim r [
                | err error ↦ err error
                | ok detailed ↦ ok (enter_status env actor status a.status detailed)
              ])
            ≡ ok b
          → (b.tenant_id ≡ a.tenant_id) × (b.id ≡ a.id)
      entered true r keeps h = ground (arith, h)
      entered false (err error) keeps h = ground (arith, h)
      entered false (ok d) keeps h =
          let kept = enter_status_keeps status a.status d in
          let detailed = keeps d refl in
          (ground (arith, h, kept, detailed), ground (arith, h, kept, detailed))

  patch_incident_moved_keeps :
      (a moved : Incident)
      → (if patch.status == ""
          then ok a
          else change_incident_status env actor (to_upper patch.status) patch a)
        ≡ ok moved
      → (moved.tenant_id ≡ a.tenant_id) × (moved.id ≡ a.id)
  patch_incident_moved_keeps a moved made = elim (Bool-cases (patch.status == "")) [
    | inl blank ↦ (ground (arith, made, blank), ground (arith, made, blank))
    | inr named ↦
        change_incident_status-KeepsIncident (to_upper patch.status) a moved
          (else_of (patch.status == "") (ok a) _ named made)
  ]

  -- The change that UpdateIncident makes keeps the incident's tenant and identifier.
  pub patch_incident-KeepsIncident : KeepsIncident (patch_incident env actor patch)
  unfolding patch_incident
  patch_incident-KeepsIncident a b e =
      elim (Result-cases (
        if patch.status == ""
        then ok a
        else change_incident_status env actor (to_upper patch.status) patch a)) [
          | inl (error, failed) ↦ absurd (ground (arith, e, failed))
          | inr (moved, made) ↦
              let kept = patch_incident_moved_keeps a moved made in
              let assigned = assign_incident env actor patch moved in
              let fields = patch_incident_fields_keeps assigned in
              (
                ground (arith, e, made, fields.0, (assign_incident_keeps moved).0, kept.0),
                ground (arith, e, made, fields.1, (assign_incident_keeps moved).1, kept.1),
              )
        ]

module _ (c : Codec) (env : Env) where
  open env use {clock, new_id, ctx}

  -- Whatever UpdateAlert answers, it leaves a well-formed store well formed.
  pub update_alert-IsSafe :
      (tenant id actor request_id : String) (patch : AlertPatch)
      → IsSafe c (update_alert c env tenant id actor request_id patch)
  unfolding update_alert
  update_alert-IsSafe tenant id actor request_id patch =
      audited-IsSafe c
        (Repository.mutate_alert (ctx 0) tenant id patch.version (patch_alert (clock 0) patch)
          (clock 1))
        "append alert audit" (ctx 1) (new_id 0 "aud") (clock 2)
        (λ alert. triage_entry tenant actor request_id patch alert)
        (mutate_alert-IsSafe c (ctx 0) tenant id patch.version (clock 1)
          (patch_alert (clock 0) patch) (patch_alert-KeepsAlert (clock 0) patch))

  -- The same for UpdateIncident.
  pub update_incident-IsSafe :
      (tenant id actor : String) (patch : IncidentPatch)
      → IsSafe c (update_incident c env tenant id actor patch)
  unfolding update_incident
  update_incident-IsSafe tenant id actor patch =
      audited-IsSafe c
        (Repository.mutate_incident (ctx 0) tenant id patch.version (patch_incident env actor patch)
          (clock 1))
        "append incident audit" (ctx 1) (new_id 3 "aud") (clock 2)
        (λ incident. update_entry tenant actor patch incident)
        (mutate_incident-IsSafe c (ctx 0) tenant id patch.version (clock 1)
          (patch_incident env actor patch) (patch_incident-KeepsIncident env actor patch))
