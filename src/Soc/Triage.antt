-- ===== src/Soc/Triage.antt =====
-- UpdateAlert.
use kazutb_siem.Base.{ℕ, String, ◌&&◌, ◌||◌, not, ◌==◌, if◌then◌else◌}
use kazutb_siem.Base.Text.{◌<>◌, trim_space, to_upper}
use kazutb_siem.Core.{
  text, end, field, Alert, AuditEntry, Result, invalid_transition, closure_details, wrap, ok, err,
}
use kazutb_siem.Store.Action.{Action, pure, wrapping, ◌>>=◌, ◌>>◌, Env}
use kazutb_siem.Store.Audit.{Codec}
use kazutb_siem.Store.Repository.{mutate_alert, append_audit}
use kazutb_siem.Soc.Lifecycle.{valid_alert_transition, acknowledge, AlertPatch}

-- `if patch.Status != ""`
unfoldable pub change_alert_status : ℕ → String → String → Alert → Result Alert
unfolding valid_alert_transition trim_space acknowledge
change_alert_status now next disposition alert =
    if not (valid_alert_transition alert.status next)
    then err (wrap ("alert " <> alert.status <> " -> " <> next) invalid_transition)
    else if next == "CLOSED" && trim_space disposition == ""
    then err closure_details
    else ok (record alert {
      status = next;
      sla =
          if next == "ACKNOWLEDGED" || next == "IN_PROGRESS" || next == "CLOSED"
          then acknowledge now alert.sla
          else alert.sla;
    })

-- The rest of the function that MutateAlert is given.
unfoldable pub patch_alert_fields : AlertPatch → Alert → Alert
unfolding trim_space to_upper
patch_alert_fields patch alert = record alert {
  assignee = if patch.assignee == "" then alert.assignee else trim_space patch.assignee;
  disposition = if patch.disposition == "" then alert.disposition else to_upper patch.disposition;
}

unfoldable pub patch_alert : ℕ → AlertPatch → Alert → Result Alert
unfolding change_alert_status patch_alert_fields to_upper
patch_alert now patch alert =
    elim (if patch.status == ""
      then ok alert
      else change_alert_status now (to_upper patch.status) patch.disposition alert) [
        | err e ↦ err e
        | ok changed ↦ ok (patch_alert_fields patch changed)
      ]

unfoldable pub triage_entry : String → String → String → AlertPatch → Alert → AuditEntry
triage_entry tenant actor request_id patch alert = record {
  id = "";
  tenant_id = tenant;
  actor = actor;
  action = "alert.triaged";
  resource_type = "alert";
  resource_id = alert.id;
  outcome = "success";
  request_id = request_id;
  metadata = field "status" (text alert.status) (
      field "assignee" (text alert.assignee)
        (field "disposition" (text alert.disposition) (field "comment" (text patch.comment) end)));
  previous_hash = "";
  hash = "";
  created_at = 0;
}

module _ (codec : Codec) (env : Env) where
  open env use {clock, new_id, ctx}

  unfoldable pub update_alert : String → String → String → String → AlertPatch → Action Alert
  unfolding patch_alert triage_entry
  update_alert tenant alert_id actor request_id patch = do
    alert ←
        mutate_alert (ctx 0) tenant alert_id patch.version (patch_alert (clock 0) patch) (clock 1)
    wrapping "append alert audit" (
        append_audit (ctx 1) codec (new_id 0 "aud") (clock 2)
          (triage_entry tenant actor request_id patch alert))
    pure alert
