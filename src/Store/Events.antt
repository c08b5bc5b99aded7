-- ===== src/Store/Events.antt =====
-- PutEvent, GetEvent, ListEvents, PutFinding and ListFindings.
use mathlib.Core.List.{reverse}
use kazutb_siem.Base.{
  ℕ, String, Bool, true, false, ◌&&◌, ◌||◌, none, some, List, [], ◌∷◌, ◌++◌, ◌==◌, eqb,
}
use kazutb_siem.Base.Int.{pos}
use kazutb_siem.Base.Map.{insert, lookup₂, insert₂}
use kazutb_siem.Base.Int.{pos}
use kazutb_siem.Base.Text.{trim_space, to_lower, equal_fold, contains, joined}
use kazutb_siem.Core.{CanonicalEvent, end, Finding, Result, not_found, ok, err}
use kazutb_siem.Store.State.{slice_at, ensure_tenant, normalized_limit, Memory}
use kazutb_siem.Store.Scan.{scan}

pub record EventFilter : Type 0 where
  pub query : String
  pub category : String
  pub severity : ℕ
  pub limit : ℕ

-- core.CanonicalEvent{}
abbrev pub zero_event : CanonicalEvent
zero_event = record {
  id = "";
  tenant_id = "";
  event_time = 0;
  ingest_time = 0;
  collector_id = "";
  source_id = "";
  source_address = "";
  category = "";
  activity_name = "";
  source = record { vendor = ""; product = ""; kind = "" };
  schema = record { ocsf_version = ""; class_uid = 0 };
  severity = 0;
  confidence = 0;
  user = record { id = ""; name = ""; is_privileged = false };
  device = record { id = ""; hostname = ""; ip = ""; department = ""; criticality = pos 0 };
  src_endpoint = record { ip = ""; port = pos 0; hostname = "" };
  dst_endpoint = record { ip = ""; port = pos 0; hostname = "" };
  process = record { name = ""; pid = 0; command_line = ""; parent_name = "" };
  security_result = record { action = ""; outcome = "" };
  raw = record { message = ""; hash = ""; reference = "" };
  parser = record { id = ""; version = "" };
  metadata = end;
}

-- core.Finding{}
abbrev pub zero_finding : Finding
zero_finding = record {
  id = "";
  tenant_id = "";
  event_id = "";
  rule = record { id = ""; title = ""; version = "" };
  title = "";
  severity = "";
  confidence = pos 0;
  mitre = [];
  matched_fields = [];
  risk_score = 0;
  risk_breakdown = [];
  created_at = 0;
}

-- The event that is stored under the identifier, and whether it was there before.
unfoldable pub put_event : CanonicalEvent → Memory → (CanonicalEvent × Bool) × Memory
unfolding ensure_tenant lookup₂ insert₂ slice_at
put_event event m =
    let ready = ensure_tenant event.tenant_id m in
    elim (lookup₂ event.tenant_id event.id ready.events) [
      | some existing ↦ ((existing, true), ready)
      | none ↦ (
        (event, false),
        record ready {
          events = insert₂ event.tenant_id event.id event ready.events;
          event_order =
              insert event.tenant_id (slice_at event.tenant_id ready.event_order ++ event.id ∷ [])
                ready.event_order;
        },
      )
    ]

unfoldable pub get_event : String → String → Memory → Result CanonicalEvent
unfolding lookup₂
get_event tenant event_id m = elim (lookup₂ tenant event_id m.events) [
  | none ↦ err not_found
  | some event ↦ ok event
]

unfoldable pub event_contains : CanonicalEvent → String → Bool
unfolding to_lower contains joined
event_contains event query =
    contains
      (to_lower (
        joined " " (
          event.id ∷ event.category ∷ event.activity_name ∷ event.source.vendor
          ∷ event.source.product ∷ event.user.name ∷ event.device.hostname ∷ event.device.ip
          ∷ event.src_endpoint.ip ∷ event.dst_endpoint.ip ∷ event.process.name
          ∷ event.process.command_line ∷ event.security_result.outcome ∷ event.raw.message ∷ [])))
      query

unfoldable pub event_matches : EventFilter → String → CanonicalEvent → Bool
unfolding equal_fold event_contains
event_matches filter query event =
    (filter.category == "" || equal_fold event.category filter.category)
    && (eqb filter.severity 0 || eqb event.severity filter.severity)
    && (query == "" || event_contains event query)

unfoldable pub list_events : String → EventFilter → Memory → List CanonicalEvent
unfolding scan slice_at lookup₂ event_matches normalized_limit to_lower trim_space
list_events tenant filter m =
    scan (λ i. elim (lookup₂ tenant i m.events) [ none ↦ zero_event | some event ↦ event ])
      (event_matches filter (to_lower (trim_space filter.query))) (normalized_limit filter.limit)
      (reverse (slice_at tenant m.event_order))

unfoldable pub put_finding : Finding → Memory → Memory
unfolding ensure_tenant lookup₂ insert₂ slice_at
put_finding finding m =
    let ready = ensure_tenant finding.tenant_id m in
    elim (lookup₂ finding.tenant_id finding.id ready.findings) [
      | some _ ↦ ready
      | none ↦ record ready {
        findings = insert₂ finding.tenant_id finding.id finding ready.findings;
        finding_order =
            insert finding.tenant_id
              (slice_at finding.tenant_id ready.finding_order ++ finding.id ∷ [])
              ready.finding_order;
      }
    ]

unfoldable pub list_findings : String → String → ℕ → Memory → List Finding
unfolding scan slice_at lookup₂ normalized_limit
list_findings tenant event_id limit m =
    scan (λ i. elim (lookup₂ tenant i m.findings) [ none ↦ zero_finding | some f ↦ f ])
      (λ finding. event_id == "" || finding.event_id == event_id) (normalized_limit limit)
      (reverse (slice_at tenant m.finding_order))
