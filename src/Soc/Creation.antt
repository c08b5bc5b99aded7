-- ===== src/Soc/Creation.antt =====
-- CreateIncident. The calls on the environment are numbered in the order in which they are made.
use kazutb_siem.Base.{
  ℕ, ◌+◌, String, Bool, true, false, ◌&&◌, ◌||◌, not, Option, none, some, List, [], ◌∷◌, ◌++◌, ◌==◌,
  ltb, if◌then◌else◌, length,
}
use kazutb_siem.Base.Int.{pos}
use kazutb_siem.Base.Text.{◌<>◌, trim_space}
use kazutb_siem.Core.{
  Severity, severity_informational, severity_rank, text_items, num, text, arr, end, field,
  EntitySummary, Alert, Incident, AuditEntry, Error, Result, no_alerts, external, ok, err,
}
use kazutb_siem.Store.State.{append_new}
use kazutb_siem.Store.Action.{Action, pure, fail, lift, wrapping, ◌>>=◌, ◌>>◌, Env}
use kazutb_siem.Store.Audit.{Codec}
use kazutb_siem.Store.Repository.{
  get_alert, mutate_alert, create_incident, list_incidents, append_audit,
}
use kazutb_siem.Soc.Lifecycle.{
  allowed_transitions, acknowledgement_window, unique_sorted, texts_equal, entity_exists,
  CreateIncidentInput,
}

-- The first incident that holds just these alerts.
unfoldable pub find_duplicate : List String → List Incident → Option Incident
unfolding unique_sorted texts_equal
find_duplicate alert_ids [] = none
find_duplicate alert_ids (existing ∷ rest) =
    if texts_equal (unique_sorted existing.alert_ids) alert_ids
    then some existing
    else find_duplicate alert_ids rest

-- What the loop over the alerts gathers.
pub record Gathered : Type 0 where
  pub alerts : List Alert
  pub severity : Severity
  pub risk_score : ℕ
  pub finding_ids : List String
  pub event_ids : List String
  pub mitre : List String
  pub entities : List EntitySummary

abbrev pub gathered_nothing : Gathered
gathered_nothing = record {
  alerts = [];
  severity = severity_informational;
  risk_score = 0;
  finding_ids = [];
  event_ids = [];
  mitre = [];
  entities = [];
}

unfoldable pub gather_alert : Gathered → Alert → Gathered
unfolding severity_rank append_new entity_exists
gather_alert g alert = record {
  alerts = g.alerts ++ alert ∷ [];
  severity =
      if ltb (severity_rank g.severity) (severity_rank alert.severity)
      then alert.severity
      else g.severity;
  risk_score = if ltb g.risk_score alert.risk_score then alert.risk_score else g.risk_score;
  finding_ids = append_new g.finding_ids alert.finding_ids;
  event_ids = append_new g.event_ids alert.event_ids;
  mitre = append_new g.mitre alert.mitre;
  entities =
      if not (alert.entity.name == "") && not (entity_exists g.entities alert.entity)
      then g.entities ++ alert.entity ∷ []
      else g.entities;
}

-- The loop over `alertIDs`; its calls on the context begin at number k.
unfoldable pub gather_alerts :
    (ℕ → Option Error) → String → ℕ → Gathered → List String → Action Gathered
unfolding gather_alert
gather_alerts ctx tenant k g [] = pure g
gather_alerts ctx tenant k g (alert_id ∷ rest) = get_alert (ctx k) tenant alert_id >>= λ alert.
    gather_alerts ctx tenant (k + 1) (gather_alert g alert) rest

-- What CreateIncident does to each of the incident's alerts.
unfoldable pub link_alert : String → Alert → Result Alert
link_alert assignee value = ok (record value {
  status =
      if value.status == "NEW" || value.status == "ACKNOWLEDGED"
      then "IN_PROGRESS"
      else value.status;
  assignee = if value.assignee == "" then assignee else value.assignee;
})

module _ (codec : Codec) (env : Env) where
  open env use {clock, new_id, ctx}

  -- The loop over `alerts`; `k` numbers its calls on the context, and `t` on the clock.
  unfoldable pub link_alerts : String → String → ℕ → ℕ → List Alert → Action (Unit {0})
  unfolding link_alert
  link_alerts tenant assignee k t [] = pure tt
  link_alerts tenant assignee k t (alert ∷ rest) =
      wrapping ("link alert " <> alert.id <> " to incident")
        (mutate_alert (ctx k) tenant alert.id 0 (link_alert assignee) (clock t))
      >> link_alerts tenant assignee (k + 1) (t + 1) rest

  -- alerts[0].Title panics where there is no alert, and the request ends there.
  unfoldable pub incident_title : String → List Alert → Result String
  unfolding trim_space
  incident_title title [] =
      if trim_space title == "" then err (external "index out of range") else ok (trim_space title)
  incident_title title (alert ∷ rest) =
      ok (if trim_space title == "" then alert.title else trim_space title)

  unfoldable pub new_incident :
      String → String → CreateIncidentInput → List String → String → Gathered → Incident
  unfolding trim_space acknowledgement_window allowed_transitions
  new_incident tenant actor input alert_ids title g = record {
    id = new_id 0 "inc";
    tenant_id = tenant;
    title = title;
    summary = trim_space input.summary;
    severity = g.severity;
    status = "NEW";
    disposition = "";
    closure_reason = "";
    assignee = trim_space input.assignee;
    alert_ids = alert_ids;
    finding_ids = g.finding_ids;
    event_ids = g.event_ids;
    entities = g.entities;
    mitre = g.mitre;
    risk_score = g.risk_score;
    timeline =
        record {
          id = new_id 1 "tim";
          kind = "incident.created";
          message = "Incident created from SOC alert";
          actor = actor;
          created_at = clock 0;
          details = end;
        }
        ∷ [];
    sla = record {
      acknowledge_by = clock 0 + acknowledgement_window g.severity;
      breached = false;
      acknowledged = none;
    };
    allowed_transitions = allowed_transitions "NEW";
    version = 1;
    created_at = clock 0;
    updated_at = clock 0;
  }

  unfoldable pub creation_entry :
      String → String → CreateIncidentInput → List String → Gathered → Incident → AuditEntry
  unfolding text_items
  creation_entry tenant actor input alert_ids g created = record {
    id = "";
    tenant_id = tenant;
    actor = actor;
    action = "incident.created";
    resource_type = "incident";
    resource_id = created.id;
    outcome = "success";
    request_id = input.request_id;
    metadata =
        field "alert_ids" (arr (text_items alert_ids))
          (field "severity" (text g.severity) (field "risk_score" (num (pos g.risk_score)) end));
    previous_hash = "";
    hash = "";
    created_at = 0;
  }

  -- The part of CreateIncident below the search for a duplicate; `n` alerts are asked for.
  unfoldable pub open_incident :
      String → String → CreateIncidentInput → List String → Action (Incident × Bool)
  unfolding gather_alerts link_alerts incident_title new_incident creation_entry
  open_incident tenant actor input alert_ids = do
    let n = length alert_ids
    g ← gather_alerts ctx tenant 1 gathered_nothing alert_ids
    title ← lift (incident_title input.title g.alerts)
    created ← create_incident (ctx (1 + n)) (new_incident tenant actor input alert_ids title g)
    link_alerts tenant input.assignee (2 + n) 1 g.alerts
    wrapping "append incident creation audit" (
        append_audit (ctx (2 + n + n)) codec (new_id 2 "aud") (clock (1 + n))
          (creation_entry tenant actor input alert_ids g created))
    pure (created, false)

  -- The incident, and whether it was there before.
  unfoldable pub create_soc_incident :
      String → String → CreateIncidentInput → Action (Incident × Bool)
  unfolding unique_sorted find_duplicate open_incident
  create_soc_incident tenant actor input = elim input.alert_ids [
    | [] ↦ fail no_alerts
    | first ∷ others ↦
        let alert_ids = unique_sorted (first ∷ others) in
        list_incidents (ctx 0) tenant
          (record { status = ""; severity = ""; query = ""; limit = 500 })
        >>= λ existing. elim (find_duplicate alert_ids existing) [
          | some found ↦ pure (found, true)
          | none ↦ open_incident tenant actor input alert_ids
        ]
  ]
