-- ===== src/Store/Alerts.antt =====
-- UpsertAlert, GetAlert, ListAlerts and MutateAlert.
use mathlib.Core.List.{reverse}
use kazutb_siem.Base.{
  ℕ, ◌+◌, ◌-◌, min, String, Bool, true, false, ◌&&◌, ◌||◌, not, Option, none, some, List, [], ◌∷◌,
  ◌++◌, ◌==◌, ltb, leb, eqb, if◌then◌else◌, length,
}
use kazutb_siem.Base.Map.{insert, lookup₂, insert₂}
use kazutb_siem.Base.Text.{◌<>◌, trim_space, to_lower, equal_fold, contains}
use kazutb_siem.Core.{Severity, Alert, Result, not_found, version_conflict, ok, err}
use kazutb_siem.Store.State.{slice_at, text_at, ensure_tenant, normalized_limit, append_new, Memory}
use kazutb_siem.Store.Scan.{scan}

pub record AlertFilter : Type 0 where
  pub status : String
  pub severity : Severity
  pub assignee : String
  pub query : String
  pub limit : ℕ

-- core.Alert{}
abbrev pub zero_alert : Alert
zero_alert = record {
  id = "";
  tenant_id = "";
  title = "";
  severity = "";
  risk_score = 0;
  risk_breakdown = [];
  status = "";
  disposition = "";
  assignee = "";
  rule = record { id = ""; title = ""; version = "" };
  mitre = [];
  entity = record { kind = ""; id = ""; name = ""; label = "" };
  finding_ids = [];
  event_ids = [];
  event_count = 0;
  first_seen = 0;
  last_seen = 0;
  sla = record { acknowledge_by = 0; breached = false; acknowledged = none };
  version = 0;
  created_at = 0;
  updated_at = 0;
}

-- The largest time.Duration, where Time.Sub saturates.
abbrev pub max_duration : ℕ
max_duration = 9223372036854775807

-- later.Sub(earlier) <= window; a negative difference is below every window
unfoldable pub within : ℕ → ℕ → ℕ → Bool
within later earlier window = leb (min (later - earlier) max_duration) window

abbrev pub dedup_entry : String → String → String
dedup_entry tenant dedup_key = tenant <> "|" <> dedup_key

-- The alert that the index names, where it is open and was seen within the window.
unfoldable pub reusable : Alert → String → ℕ → Memory → Option Alert
unfolding lookup₂ text_at within
reusable candidate dedup_key window m =
    let existing_id = text_at (dedup_entry candidate.tenant_id dedup_key) m.dedup in
    if existing_id == "" then none else elim (lookup₂ candidate.tenant_id existing_id m.alerts) [
      | none ↦ none
      | some existing ↦
          if not (existing.status == "CLOSED")
            && within candidate.last_seen existing.last_seen window
          then some existing
          else none
    ]

unfoldable pub merge_alert : Alert → Alert → Alert
unfolding append_new
merge_alert existing candidate =
    let event_ids = append_new existing.event_ids candidate.event_ids in
    let higher = ltb existing.risk_score candidate.risk_score in
    record existing {
      finding_ids = append_new existing.finding_ids candidate.finding_ids;
      event_ids = event_ids;
      event_count = length event_ids;
      last_seen = candidate.last_seen;
      updated_at = candidate.updated_at;
      version = existing.version + 1;
      risk_score = if higher then candidate.risk_score else existing.risk_score;
      risk_breakdown = if higher then candidate.risk_breakdown else existing.risk_breakdown;
      severity = if higher then candidate.severity else existing.severity;
    }

-- The alert as it is stored, and whether it is new.
unfoldable pub upsert_alert : Alert → String → ℕ → Memory → (Alert × Bool) × Memory
unfolding ensure_tenant reusable merge_alert insert₂ slice_at text_at
upsert_alert candidate dedup_key window m =
    let ready = ensure_tenant candidate.tenant_id m in
    let tenant = candidate.tenant_id in
    let key = dedup_entry tenant dedup_key in
    elim (reusable candidate dedup_key window ready) [
      | some existing ↦
          let merged = merge_alert existing candidate in
          (
            (merged, false),
            record ready { alerts = insert₂ tenant (text_at key ready.dedup) merged ready.alerts },
          )
      | none ↦ (
        (candidate, true),
        record ready {
          alerts = insert₂ tenant candidate.id candidate ready.alerts;
          alert_order =
              insert tenant (slice_at tenant ready.alert_order ++ candidate.id ∷ [])
                ready.alert_order;
          dedup = insert key candidate.id ready.dedup;
        },
      )
    ]

unfoldable pub get_alert : String → String → Memory → Result Alert
unfolding lookup₂
get_alert tenant alert_id m = elim (lookup₂ tenant alert_id m.alerts) [
  | none ↦ err not_found
  | some alert ↦ ok alert
]

unfoldable pub alert_matches : AlertFilter → String → Alert → Bool
unfolding equal_fold to_lower contains
alert_matches filter query alert =
    (filter.status == "" || equal_fold alert.status filter.status)
    && (filter.severity == "" || alert.severity == filter.severity)
    && (filter.assignee == "" || equal_fold alert.assignee filter.assignee)
    && (query == ""
        || contains
            (to_lower (
              alert.title <> " " <> alert.rule.title <> " " <> alert.entity.name <> " "
              <> alert.assignee))
            query)

unfoldable pub list_alerts : String → AlertFilter → Memory → List Alert
unfolding scan slice_at lookup₂ alert_matches normalized_limit to_lower trim_space
list_alerts tenant filter m =
    scan (λ i. elim (lookup₂ tenant i m.alerts) [ none ↦ zero_alert | some a ↦ a ])
      (alert_matches filter (to_lower (trim_space filter.query))) (normalized_limit filter.limit)
      (reverse (slice_at tenant m.alert_order))

-- `mutate` changes a copy, which is stored only if it returns no error; `now` is the clock.
unfoldable pub mutate_alert :
    String → String → ℕ → (Alert → Result Alert) → ℕ → Memory → Result Alert × Memory
unfolding lookup₂ insert₂
mutate_alert tenant alert_id expected_version mutate now m =
    elim (lookup₂ tenant alert_id m.alerts) [
      | none ↦ (err not_found, m)
      | some alert ↦
          if ltb 0 expected_version && not (eqb alert.version expected_version)
          then (err version_conflict, m)
          else elim (mutate alert) [
            | err e ↦ (err e, m)
            | ok changed ↦
                let saved = record changed { version = changed.version + 1; updated_at = now } in
                (ok saved, record m { alerts = insert₂ tenant alert_id saved m.alerts })
          ]
    ]
