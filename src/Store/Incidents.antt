-- ===== src/Store/Incidents.antt =====
-- CreateIncident, GetIncident, ListIncidents and MutateIncident.
use mathlib.Core.List.{reverse}
use kazutb_siem.Base.{
  ℕ, ◌+◌, String, Bool, false, ◌&&◌, ◌||◌, not, none, some, List, [], ◌∷◌, ◌++◌, ◌==◌, ltb, eqb,
  if◌then◌else◌,
}
use kazutb_siem.Base.Map.{insert, lookup₂, insert₂}
use kazutb_siem.Base.Text.{◌<>◌, trim_space, to_lower, equal_fold, contains}
use kazutb_siem.Core.{Severity, Incident, Result, not_found, version_conflict, ok, err}
use kazutb_siem.Store.State.{slice_at, ensure_tenant, normalized_limit, Memory}
use kazutb_siem.Store.Scan.{scan}

pub record IncidentFilter : Type 0 where
  pub status : String
  pub severity : Severity
  pub query : String
  pub limit : ℕ

-- core.Incident{}
abbrev pub zero_incident : Incident
zero_incident = record {
  id = "";
  tenant_id = "";
  title = "";
  summary = "";
  severity = "";
  status = "";
  disposition = "";
  closure_reason = "";
  assignee = "";
  alert_ids = [];
  finding_ids = [];
  event_ids = [];
  entities = [];
  mitre = [];
  risk_score = 0;
  timeline = [];
  sla = record { acknowledge_by = 0; breached = false; acknowledged = none };
  allowed_transitions = [];
  version = 0;
  created_at = 0;
  updated_at = 0;
}

-- The method is Memory.CreateIncident; an identifier that is taken is a version conflict.
unfoldable pub store_incident : Incident → Memory → Result Incident × Memory
unfolding ensure_tenant lookup₂ insert₂ slice_at
store_incident incident m =
    let tenant = incident.tenant_id in
    let ready = ensure_tenant tenant m in
    elim (lookup₂ tenant incident.id ready.incidents) [
      | some _ ↦ (err version_conflict, ready)
      | none ↦ (
        ok incident,
        record ready {
          incidents = insert₂ tenant incident.id incident ready.incidents;
          incident_order =
              insert tenant (slice_at tenant ready.incident_order ++ incident.id ∷ [])
                ready.incident_order;
        },
      )
    ]

unfoldable pub get_incident : String → String → Memory → Result Incident
unfolding lookup₂
get_incident tenant incident_id m = elim (lookup₂ tenant incident_id m.incidents) [
  | none ↦ err not_found
  | some incident ↦ ok incident
]

unfoldable pub incident_matches : IncidentFilter → String → Incident → Bool
unfolding equal_fold to_lower contains
incident_matches filter query incident =
    (filter.status == "" || equal_fold incident.status filter.status)
    && (filter.severity == "" || incident.severity == filter.severity)
    && (query == ""
        || contains
            (to_lower (incident.title <> " " <> incident.summary <> " " <> incident.assignee))
            query)

unfoldable pub list_incidents : String → IncidentFilter → Memory → List Incident
unfolding scan slice_at lookup₂ incident_matches normalized_limit to_lower trim_space
list_incidents tenant filter m =
    scan (λ i. elim (lookup₂ tenant i m.incidents) [ none ↦ zero_incident | some a ↦ a ])
      (incident_matches filter (to_lower (trim_space filter.query))) (normalized_limit filter.limit)
      (reverse (slice_at tenant m.incident_order))

unfoldable pub mutate_incident :
    String → String → ℕ → (Incident → Result Incident) → ℕ → Memory → Result Incident × Memory
unfolding lookup₂ insert₂
mutate_incident tenant incident_id expected_version mutate now m =
    elim (lookup₂ tenant incident_id m.incidents) [
      | none ↦ (err not_found, m)
      | some incident ↦
          if ltb 0 expected_version && not (eqb incident.version expected_version)
          then (err version_conflict, m)
          else elim (mutate incident) [
            | err e ↦ (err e, m)
            | ok changed ↦
                let saved = record changed { version = changed.version + 1; updated_at = now } in
                (ok saved, record m { incidents = insert₂ tenant incident_id saved m.incidents })
          ]
    ]
