-- ===== src/Soc/Response.antt =====
-- UpdateIncident.
use kazutb_siem.Base.{ℕ, String, ◌&&◌, ◌||◌, not, [], ◌∷◌, ◌++◌, ◌==◌, if◌then◌else◌, has}
use kazutb_siem.Base.Text.{◌<>◌, trim_space, to_upper}
use kazutb_siem.Core.{
  text, end, field, Incident, AuditEntry, Result, invalid_transition, closure_details, wrap, ok,
  err,
}
use kazutb_siem.Store.Action.{Action, pure, wrapping, ◌>>=◌, ◌>>◌, Env}
use kazutb_siem.Store.Audit.{Codec}
use kazutb_siem.Store.Repository.{mutate_incident, append_audit}
use kazutb_siem.Soc.Lifecycle.{allowed_transitions, first_non_empty, acknowledge, IncidentPatch}

-- One more entry at the end of the timeline.
unfoldable pub note : String → String → String → String → ℕ → Incident → Incident
note id kind message actor now incident = record incident {
  timeline =
      incident.timeline
      ++ record {
        id = id;
        kind = kind;
        message = message;
        actor = actor;
        created_at = now;
        details = end;
      }
        ∷ [];
}

-- `if next == "CLOSED"`
unfoldable pub close_details : IncidentPatch → Incident → Result Incident
unfolding first_non_empty to_upper
close_details patch incident =
    let disposition = first_non_empty (patch.disposition ∷ incident.disposition ∷ []) in
    let reason = first_non_empty (patch.closure_reason ∷ incident.closure_reason ∷ []) in
    if disposition == "" || reason == ""
    then err closure_details
    else ok (record incident { disposition = to_upper disposition; closure_reason = reason })

module _ (env : Env) (actor : String) where
  open env use {clock, new_id}

  -- The status, the note of its change, and the acknowledgement.
  unfoldable pub enter_status : String → String → Incident → Incident
  unfolding note acknowledge
  enter_status next previous incident =
      let moved : Incident = record incident { status = next } in
      let noted =
        if not (next == previous)
        then note (new_id 0 "tim") "incident.status_changed" (previous <> " → " <> next) actor
            (clock 0) moved
        else moved in
      if not (next == "NEW") then record noted { sla = acknowledge (clock 0) noted.sla } else noted

  -- `if patch.Status != ""`, for the status in upper case
  unfoldable pub change_incident_status : String → IncidentPatch → Incident → Result Incident
  unfolding allowed_transitions has close_details enter_status
  change_incident_status next patch incident =
      let previous = incident.status in
      if not (has next (allowed_transitions previous)) && not (previous == next)
      then err (wrap ("incident " <> previous <> " -> " <> next) invalid_transition)
      else elim (if next == "CLOSED" then close_details patch incident else ok incident) [
        | err e ↦ err e
        | ok detailed ↦ ok (enter_status next previous detailed)
      ]

  unfoldable pub assign_incident : IncidentPatch → Incident → Incident
  unfolding trim_space note
  assign_incident patch incident =
      if not (patch.assignee == "") && not (patch.assignee == incident.assignee)
      then note (new_id 1 "tim") "incident.assigned" ("Assigned to " <> trim_space patch.assignee)
          actor (clock 0) (record incident { assignee = trim_space patch.assignee })
      else incident

  -- The patch of the disposition, the closure reason and the comment.
  unfoldable pub patch_incident_fields : IncidentPatch → Incident → Incident
  unfolding trim_space to_upper note
  patch_incident_fields patch incident =
      let described = record incident {
        disposition =
            if patch.disposition == "" then incident.disposition else to_upper patch.disposition;
        closure_reason =
            if patch.closure_reason == ""
            then incident.closure_reason
            else trim_space patch.closure_reason;
      } in
      if not (trim_space patch.comment == "")
      then note (new_id 2 "tim") "comment" (trim_space patch.comment) actor (clock 0) described
      else described

  -- The function that MutateIncident is given.
  unfoldable pub patch_incident : IncidentPatch → Incident → Result Incident
  unfolding change_incident_status assign_incident patch_incident_fields allowed_transitions
      to_upper
  patch_incident patch incident =
      elim (if patch.status == ""
        then ok incident
        else change_incident_status (to_upper patch.status) patch incident) [
          | err e ↦ err e
          | ok changed ↦
              let patched = patch_incident_fields patch (assign_incident patch changed) in
              ok (record patched { allowed_transitions = allowed_transitions patched.status })
        ]

unfoldable pub update_entry : String → String → IncidentPatch → Incident → AuditEntry
update_entry tenant actor patch incident = record {
  id = "";
  tenant_id = tenant;
  actor = actor;
  action = "incident.updated";
  resource_type = "incident";
  resource_id = incident.id;
  outcome = "success";
  request_id = patch.request_id;
  metadata = field "status" (text incident.status) (
      field "assignee" (text incident.assignee)
        (field "disposition" (text incident.disposition) end));
  previous_hash = "";
  hash = "";
  created_at = 0;
}

module _ (codec : Codec) (env : Env) where
  open env use {clock, new_id, ctx}

  unfoldable pub update_incident : String → String → String → IncidentPatch → Action Incident
  unfolding patch_incident update_entry
  update_incident tenant incident_id actor patch = do
    incident ←
        mutate_incident (ctx 0) tenant incident_id patch.version (patch_incident env actor patch)
          (clock 1)
    wrapping "append incident audit" (
        append_audit (ctx 1) codec (new_id 3 "aud") (clock 2)
          (update_entry tenant actor patch incident))
    pure incident
