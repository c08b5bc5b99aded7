-- ===== src/Examples/Data.antt =====
-- The inputs of the examples: two tenants, an event, an alert, an incident.
use kazutb_siem.Base.{◌+◌, true, false, none, some, [], ◌∷◌}
use kazutb_siem.Base.Int.{pos}
use kazutb_siem.Core.{severity_high, CanonicalEvent, end, Alert, Incident, AuditEntry}
use kazutb_siem.Store.Action.{Env}
use kazutb_siem.Store.Audit.{Codec}
use kazutb_siem.Pipeline.Normalize.{Encoder}
use kazutb_siem.Examples.Digest.{digest}

abbrev pub codec : Codec
codec = record { sha256_hex = digest; marshal = λ _. ""; rfc3339 = λ _. "" }

abbrev pub env : Env
env = record { clock = λ k. 1000 + k; new_id = λ k prefix. prefix; ctx = λ _. none }

abbrev pub encoder : Encoder
encoder = record {
  codec = codec;
  raw_message = λ category activity _ _ _ _. category;
  group_parts = λ _. "g";
}

abbrev pub event : CanonicalEvent
event = record {
  id = "e1";
  tenant_id = "north";
  event_time = 50;
  ingest_time = 60;
  collector_id = "c";
  source_id = "";
  source_address = "";
  category = "authentication";
  activity_name = "logon";
  source = record { vendor = "v"; product = "p"; kind = "ad" };
  schema = record { ocsf_version = ""; class_uid = 0 };
  severity = 1;
  confidence = 1;
  user = record { id = "u"; name = "alice"; is_privileged = true };
  device = record {
    id = "d";
    hostname = "h";
    ip = "10.0.0.1";
    department = "";
    criticality = pos 4;
  };
  src_endpoint = record { ip = "10.0.0.9"; port = pos 1; hostname = "" };
  dst_endpoint = record { ip = ""; port = pos 0; hostname = "" };
  process = record { name = ""; pid = 0; command_line = ""; parent_name = "" };
  security_result = record { action = ""; outcome = "failure" };
  raw = record { message = "m"; hash = ""; reference = "" };
  parser = record { id = ""; version = "" };
  metadata = end;
}

abbrev pub alert : Alert
alert = record {
  id = "a1";
  tenant_id = "north";
  title = "t";
  severity = severity_high;
  risk_score = 70;
  risk_breakdown = [];
  status = "NEW";
  disposition = "";
  assignee = "";
  rule = record { id = "r"; title = "t"; version = "1" };
  mitre = [];
  entity = record { kind = "user"; id = "u"; name = "alice"; label = "" };
  finding_ids = "f1" ∷ [];
  event_ids = "e1" ∷ [];
  event_count = 1;
  first_seen = 50;
  last_seen = 50;
  sla = record { acknowledge_by = 900; breached = false; acknowledged = none };
  version = 1;
  created_at = 50;
  updated_at = 50;
}

abbrev pub incident : Incident
incident = record {
  id = "i1";
  tenant_id = "north";
  title = "t";
  summary = "";
  severity = severity_high;
  status = "CLOSED";
  disposition = "TRUE_POSITIVE";
  closure_reason = "contained";
  assignee = "bob";
  alert_ids = "a1" ∷ [];
  finding_ids = [];
  event_ids = [];
  entities = [];
  mitre = [];
  risk_score = 70;
  timeline = [];
  sla = record { acknowledge_by = 900; breached = false; acknowledged = some 400 };
  allowed_transitions = [];
  version = 3;
  created_at = 50;
  updated_at = 50;
}

abbrev pub entry : AuditEntry
entry = record {
  id = "x";
  tenant_id = "n";
  actor = "";
  action = "";
  resource_type = "";
  resource_id = "";
  outcome = "";
  request_id = "";
  metadata = end;
  previous_hash = "";
  hash = "";
  created_at = 1;
}
