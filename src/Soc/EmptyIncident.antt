-- ===== src/Soc/EmptyIncident.antt =====
-- CreateIncident for a request whose only alert identifier is empty.
use kazutb_siem.Base.{String, ◌≡◌, refl, none, [], ◌∷◌}
use kazutb_siem.Base.Text.{trim_space}
use kazutb_siem.Core.{external, err}
use kazutb_siem.Store.State.{Memory}
use kazutb_siem.Store.Incidents.{list_incidents, IncidentFilter}
use kazutb_siem.Store.Action.{Env}
use kazutb_siem.Store.Audit.{Codec}
use kazutb_siem.Soc.Lifecycle.{unique_sorted, CreateIncidentInput}
use kazutb_siem.Soc.Creation.{
  find_duplicate, gather_alerts, incident_title, open_incident, create_soc_incident,
}

abbrev pub newest : IncidentFilter
newest = record { status = ""; severity = ""; query = ""; limit = 500 }

open_incident_empty :
    (codec : Codec) (env : Env) (tenant actor : String) (input : CreateIncidentInput) (m : Memory)
    → trim_space input.title ≡ ""
    → open_incident codec env tenant actor input [] m ≡ (err (external "index out of range"), m)
unfolding open_incident incident_title gather_alerts
open_incident_empty codec env tenant actor input m blank = rw blank refl

-- With a context that is alive at the start, a request for an incident whose only alert identifier
-- is the empty text, and whose title is blank, is not refused for want of alerts: unless an incident
-- without alerts is among the newest, it ends in an access beyond the end of the list of alerts. The
-- store is as before.
pub create_soc_incident_panics :
    (codec : Codec) (env : Env) (tenant actor : String) (input : CreateIncidentInput) (m : Memory)
    → env.ctx 0 ≡ none
    → input.alert_ids ≡ "" ∷ []
    → trim_space input.title ≡ ""
    → find_duplicate [] (list_incidents tenant newest m) ≡ none
    → create_soc_incident codec env tenant actor input m ≡ (err (external "index out of range"), m)
unfolding create_soc_incident unique_sorted list_incidents
create_soc_incident_panics codec env tenant actor input m alive_0 only blank unknown =
    rw (only, create_soc_incident, alive_0, unknown)
      (open_incident_empty codec env tenant actor input m blank)
