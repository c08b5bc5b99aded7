-- ===== src/Soc/IncidentRules.antt =====
-- What a patch of an incident can do.
use kazutb_siem.Base.{
  String, ◌≡◌, refl, sym, ◌∙◌, subst, ◌⊎◌, inl, inr, Bool, true, ◌&&◌, ◌||◌, not, arith, ◌==◌,
  eq_iff, if◌then◌else◌, Bool-cases, else_of, has,
}
use kazutb_siem.Base.Text.{◌<>◌, to_upper}
use kazutb_siem.Core.{Incident, Result, invalid_transition, wrap, ok, err}
use kazutb_siem.Store.Action.{Env}
use kazutb_siem.Soc.Lifecycle.{allowed_transitions, IncidentPatch}
use kazutb_siem.Soc.Response.{
  note, close_details, enter_status, change_incident_status, assign_incident, patch_incident_fields,
  patch_incident,
}

module _ (env : Env) (actor : String) where
  enter_status_lem :
      (next previous : String) (incident : Incident)
      → (enter_status env actor next previous incident).status ≡ next
  unfolding enter_status note
  enter_status_lem next previous incident = ground arith

  -- A change of status goes to the next status, which is allowed or the present one.
  change_incident_status_lem :
      (next : String) (patch : IncidentPatch) (incident changed : Incident)
      → change_incident_status env actor next patch incident ≡ ok changed
      → (changed.status ≡ next)
        × ((has next (allowed_transitions incident.status) || incident.status == next) ≡ true)
  unfolding change_incident_status
  change_incident_status_lem next patch incident changed e =
      entered (has next (allowed_transitions incident.status)) (incident.status == next)
        (if next == "CLOSED" then close_details patch incident else ok incident) e
    where
      entered :
          (allowed same : Bool) (r : Result Incident)
          → (if not allowed && not same
              then err (wrap ("incident " <> incident.status <> " -> " <> next) invalid_transition)
              else elim r [
                | err error ↦ err error
                | ok detailed ↦ ok (enter_status env actor next incident.status detailed)
              ])
            ≡ ok changed
          → (changed.status ≡ next) × ((allowed || same) ≡ true)
      entered allowed same (err error) h = ground (arith, h)
      entered allowed same (ok detailed) h =
          (ground (arith, h, enter_status_lem next incident.status detailed), ground (arith, h))

  assign_incident_status :
      (patch : IncidentPatch) (incident : Incident)
      → (assign_incident env actor patch incident).status ≡ incident.status
  unfolding assign_incident note
  assign_incident_status patch incident = ground arith

  patch_incident_fields_status :
      (patch : IncidentPatch) (incident : Incident)
      → (patch_incident_fields env actor patch incident).status ≡ incident.status
  unfolding patch_incident_fields note
  patch_incident_fields_status patch incident = ground arith

  -- The incident after the status, and after the other fields.
  pub patch_incident_moved :
      (patch : IncidentPatch) (incident changed : Incident)
      → patch_incident env actor patch incident ≡ ok changed
      → (moved : Incident) × ((if patch.status == ""
            then ok incident
            else change_incident_status env actor (to_upper patch.status) patch incident)
          ≡ ok moved)
        × (changed.status ≡ moved.status)
        × (changed.allowed_transitions ≡ allowed_transitions changed.status)
  unfolding patch_incident
  patch_incident_moved patch incident changed e =
      after
        (if patch.status == ""
          then ok incident
          else change_incident_status env actor (to_upper patch.status) patch incident)
        e
    where
      patched : Incident → Incident
      patched moved = patch_incident_fields env actor patch (assign_incident env actor patch moved)

      after :
          (r : Result Incident)
          → elim r [
            | err error ↦ err error
            | ok c ↦ ok (record (patched c) {
              allowed_transitions = allowed_transitions (patched c).status;
            })
          ]
            ≡ ok changed
          → (moved : Incident) × (r ≡ ok moved)
            × (changed.status ≡ moved.status)
            × (changed.allowed_transitions ≡ allowed_transitions changed.status)
      after (err error) h = ground (arith, h)
      after (ok moved) h = (
        moved,
        refl,
        ground (
          arith,
          h,
          assign_incident_status patch moved,
          patch_incident_fields_status patch (assign_incident env actor patch moved),
        ),
        ground (arith, h),
      )

  -- A patch of an incident that succeeds leaves the status as it is, or has moved it to the
  -- patch's status in upper case along an edge of the table; and the transitions that the incident
  -- then offers are those of its status.
  pub patch_incident-transition :
      (patch : IncidentPatch) (incident changed : Incident)
      → patch_incident env actor patch incident ≡ ok changed
      → ((changed.status ≡ incident.status)
          ⊎ ((changed.status ≡ to_upper patch.status)
              × (has changed.status (allowed_transitions incident.status) ≡ true)))
        × (changed.allowed_transitions ≡ allowed_transitions changed.status)
  patch_incident-transition patch incident changed e =
      let (moved, f, same, offered) = patch_incident_moved patch incident changed e in
      elim (Bool-cases (patch.status == "")) [
        | inl blank ↦ (inl (same ∙ ground (arith, f, blank)), offered)
        | inr named ↦
            let g = else_of (patch.status == "") (ok incident) _ named f in
            let (next, edge) =
              change_incident_status_lem (to_upper patch.status) patch incident moved g in
            elim (Bool-cases (incident.status == to_upper patch.status)) [
              | inl stays ↦ (
                inl (same ∙ next ∙ sym ((eq_iff incident.status (to_upper patch.status)).0 stays)),
                offered,
              )
              | inr moves ↦ (
                inr (
                  same ∙ next,
                  subst (λ s. has s (allowed_transitions incident.status) ≡ true)
                      (sym (same ∙ next)) (ground (arith, edge, moves)),
                ),
                offered,
              )
            ]
      ]
