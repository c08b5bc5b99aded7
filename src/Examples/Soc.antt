-- ===== src/Examples/Soc.antt =====
-- The service's properties at concrete inputs.
use kazutb_siem.Base.{
  ◌+◌, ◌≡◌, ◌≢◌, refl, ◌⊎◌, true, false, some, [], ◌∷◌, ◌++◌, ◌==◌, ne_of_eqb, has,
}
use kazutb_siem.Base.Map.{lookup₂, insert₂}
use kazutb_siem.Base.Text.{trim_space, to_upper}
use kazutb_siem.Core.{Alert, Incident, AuditEntry, Error, ok, err}
use kazutb_siem.Store.State.{new_memory, slice_at, Memory}
use kazutb_siem.Store.Alerts.{upsert_alert}
use kazutb_siem.Store.Incidents.{store_incident}
use kazutb_siem.Store.Cases.{fits_version}
use kazutb_siem.Soc.Lifecycle.{
  alert_targets, valid_alert_transition, transitions, allowed_transitions, acknowledge, AlertPatch,
  IncidentPatch,
}
use kazutb_siem.Soc.Triage.{change_alert_status, patch_alert_fields, patch_alert, update_alert}
use kazutb_siem.Soc.Response.{
  assign_incident, patch_incident_fields, patch_incident, update_incident,
}
use kazutb_siem.Soc.AlertRules.{patch_alert-transition, patch_alert-closed}
use kazutb_siem.Soc.AlertUpdates.{update_alert_atomic}
use kazutb_siem.Soc.IncidentRules.{patch_incident-transition}
use kazutb_siem.Soc.IncidentUpdates.{update_incident_atomic}
use kazutb_siem.Soc.Closure.{HasDetails}
use kazutb_siem.Soc.Erasure.{patch_incident_erases}
use kazutb_siem.Examples.Data.{codec, env, alert, incident}

abbrev close : AlertPatch
close = record {
  status = "closed";
  assignee = "";
  disposition = "benign";
  comment = "";
  version = 1;
}

abbrev taken : Alert
taken = record alert {
  status = "CLOSED";
  disposition = "BENIGN";
  sla = record { acknowledge_by = 900; breached = true; acknowledged = some 1000 };
}

patch_alert-transition_example :
    ((to_upper "closed" ≡ "NEW") ⊎ (has (to_upper "closed") (alert_targets "NEW") ≡ true))
    × ((taken.status ≡ to_upper "closed")
        × (to_upper "closed" ≡ "CLOSED" → (trim_space "benign" == "") ≡ false))
unfolding patch_alert change_alert_status patch_alert_fields valid_alert_transition acknowledge
patch_alert-transition_example =
    patch_alert-transition 1000 close alert taken (ne_of_eqb "closed" "" refl) refl

patch_alert-closed_example : taken.status ≡ "CLOSED"
unfolding patch_alert change_alert_status patch_alert_fields valid_alert_transition acknowledge
patch_alert-closed_example = patch_alert-closed 1000 close taken taken refl refl

abbrev with_alert : Memory
with_alert = (upsert_alert alert "k" 900 new_memory).1

update_alert_atomic_example :
    ((e : Error) × (update_alert codec env "north" "a1" "bob" "q" close with_alert
        ≡ (err e, with_alert)))
    ⊎ ((old : Alert) × (new : Alert) × (m' : Memory) × (entry : AuditEntry) × (update_alert codec
            env "north" "a1" "bob" "q" close with_alert
          ≡ (ok (record new { version = new.version + 1; updated_at = 1001 }), m'))
        × (lookup₂ "north" "a1" with_alert.alerts ≡ some old)
        × (patch_alert 1000 close old ≡ ok new)
        × (m'.alerts
            ≡ insert₂ "north" "a1"
                (record new { version = new.version + 1; updated_at = 1001 })
                with_alert.alerts)
        × (slice_at "north" m'.audit ≡ slice_at "north" with_alert.audit ++ entry ∷ [])
        × (entry.resource_id ≡ new.id)
        × (entry.actor ≡ "bob"))
update_alert_atomic_example =
    update_alert_atomic codec env "north" "a1" "bob" "q" close with_alert refl

abbrev erase : IncidentPatch
erase = record {
  status = "";
  assignee = "";
  disposition = "";
  closure_reason = " ";
  comment = "";
  version = 3;
  request_id = "q";
}

abbrev with_incident : Memory
with_incident = (store_incident incident new_memory).1

update_incident_atomic_example :
    ((e : Error) × (update_incident codec env "north" "i1" "bob" erase with_incident
        ≡ (err e, with_incident)))
    ⊎ ((old : Incident) × (new : Incident) × (m' : Memory) × (entry : AuditEntry) × (update_incident
            codec env "north" "i1" "bob" erase with_incident
          ≡ (ok (record new { version = new.version + 1; updated_at = 1001 }), m'))
        × (lookup₂ "north" "i1" with_incident.incidents ≡ some old)
        × (fits_version 3 old.version ≡ true)
        × (patch_incident env "bob" erase old ≡ ok new)
        × (new.id ≡ old.id)
        × ((new.status ≡ old.status)
            ⊎ ((new.status ≡ to_upper "")
                × (has new.status (allowed_transitions old.status) ≡ true)))
        × ((to_upper "" ≢ "CLOSED") ⊎ HasDetails erase old)
        × (m' ≡ record with_incident {
          incidents =
              insert₂ "north" "i1"
                (record new { version = new.version + 1; updated_at = 1001 })
                with_incident.incidents;
          audit = m'.audit;
          audit_heads = m'.audit_heads;
        })
        × (slice_at "north" m'.audit ≡ slice_at "north" with_incident.audit ++ entry ∷ [])
        × (entry.resource_id ≡ new.id)
        × (entry.actor ≡ "bob"))
update_incident_atomic_example =
    update_incident_atomic codec env "north" "i1" "bob" erase with_incident refl

patch_incident_erases_example :
    (changed : Incident) × (patch_incident env "bob" erase incident ≡ ok changed)
    × (changed.status ≡ "CLOSED")
    × (changed.closure_reason ≡ "")
unfolding trim_space
patch_incident_erases_example =
    patch_incident_erases env "bob" erase incident refl (ne_of_eqb " " "" refl) refl

abbrev erased : Incident
erased = record incident { closure_reason = "" }

patch_incident-transition_example :
    ((erased.status ≡ "CLOSED")
      ⊎ ((erased.status ≡ to_upper "") × (has "CLOSED" (allowed_transitions "CLOSED") ≡ true)))
    × (erased.allowed_transitions ≡ allowed_transitions "CLOSED")
unfolding patch_incident patch_incident_fields assign_incident allowed_transitions transitions
patch_incident-transition_example = patch_incident-transition env "bob" erase incident erased refl
