-- ===== src/Examples/Incident.antt =====
-- An incident asked for without an alert, at a concrete input.
use kazutb_siem.Base.{◌≡◌, refl, [], ◌∷◌}
use kazutb_siem.Core.{err, external}
use kazutb_siem.Store.State.{new_memory}
use kazutb_siem.Store.Incidents.{list_incidents}
use kazutb_siem.Soc.Lifecycle.{CreateIncidentInput}
use kazutb_siem.Soc.Creation.{create_soc_incident, find_duplicate}
use kazutb_siem.Soc.EmptyIncident.{create_soc_incident_panics}
use kazutb_siem.Examples.Data.{codec, env}

abbrev request : CreateIncidentInput
request = record { title = ""; summary = ""; assignee = ""; alert_ids = "" ∷ []; request_id = "q" }

create_soc_incident_panics_example :
    create_soc_incident codec env "north" "bob" request new_memory
    ≡ (err (external "index out of range"), new_memory)
unfolding find_duplicate list_incidents
create_soc_incident_panics_example =
    create_soc_incident_panics codec env "north" "bob" request new_memory refl refl refl refl
