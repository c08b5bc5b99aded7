-- ===== src/Core/Objects.antt =====
-- Rules, findings, alerts, incidents and audit entries of model.go.
use kazutb_siem.Base.{ℕ, String, Bool, Option, List}
use kazutb_siem.Base.Int.{ℤ}
use kazutb_siem.Core.Scale.{Severity}
use kazutb_siem.Core.Event.{Fields, CanonicalEvent}

pub record RiskFactor : Type 0 where
  pub code : String
  pub label : String
  pub delta : ℤ
  pub source_reference : String

pub record RuleRef : Type 0 where
  pub id : String
  pub title : String
  pub version : String

pub record DetectionRule : Type 0 where
  pub id : String
  pub title : String
  pub description : String
  pub version : String
  pub severity : Severity
  pub confidence : ℤ
  pub mitre : List String
  pub required_data_sources : List String
  pub known_false_positives : List String
  pub owner : String
  pub state : String
  pub updated_at : ℕ

pub record Finding : Type 0 where
  pub id : String
  pub tenant_id : String
  pub event_id : String
  pub rule : RuleRef
  pub title : String
  pub severity : Severity
  pub confidence : ℤ
  pub mitre : List String
  pub matched_fields : List String
  pub risk_score : ℕ
  pub risk_breakdown : List RiskFactor
  pub created_at : ℕ

pub record EntitySummary : Type 0 where
  pub kind : String  -- Type
  pub id : String
  pub name : String
  pub label : String

pub record SlaInfo : Type 0 where
  pub acknowledge_by : ℕ
  pub breached : Bool
  pub acknowledged : Option ℕ

pub record Alert : Type 0 where
  pub id : String
  pub tenant_id : String
  pub title : String
  pub severity : Severity
  pub risk_score : ℕ
  pub risk_breakdown : List RiskFactor
  pub status : String
  pub disposition : String
  pub assignee : String
  pub rule : RuleRef
  pub mitre : List String
  pub entity : EntitySummary
  pub finding_ids : List String
  pub event_ids : List String
  pub event_count : ℕ
  pub first_seen : ℕ
  pub last_seen : ℕ
  pub sla : SlaInfo
  pub version : ℕ
  pub created_at : ℕ
  pub updated_at : ℕ

pub record TimelineEntry : Type 0 where
  pub id : String
  pub kind : String  -- Type
  pub message : String
  pub actor : String
  pub created_at : ℕ
  pub details : Fields  -- Data

pub record Incident : Type 0 where
  pub id : String
  pub tenant_id : String
  pub title : String
  pub summary : String
  pub severity : Severity
  pub status : String
  pub disposition : String
  pub closure_reason : String
  pub assignee : String
  pub alert_ids : List String
  pub finding_ids : List String
  pub event_ids : List String
  pub entities : List EntitySummary
  pub mitre : List String
  pub risk_score : ℕ
  pub timeline : List TimelineEntry
  pub sla : SlaInfo
  pub allowed_transitions : List String
  pub version : ℕ
  pub created_at : ℕ
  pub updated_at : ℕ

pub record AuditEntry : Type 0 where
  pub id : String
  pub tenant_id : String
  pub actor : String
  pub action : String
  pub resource_type : String
  pub resource_id : String
  pub outcome : String
  pub request_id : String
  pub metadata : Fields
  pub previous_hash : String
  pub hash : String
  pub created_at : ℕ

pub record IngestResult : Type 0 where
  pub event : CanonicalEvent
  pub findings : List Finding
  pub alerts : List Alert
  pub duplicate : Bool
