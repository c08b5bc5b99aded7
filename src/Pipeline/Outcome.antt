-- ===== src/Pipeline/Outcome.antt =====
-- makeFinding, makeAlert and acknowledgementWindow, which is a copy of the one in soc/service.go.
use kazutb_siem.Base.{
  ℕ, ◌+◌, String, false, not, none, List, [], ◌∷◌, ◌==◌, ltb, eqb, if◌then◌else◌, length,
}
use kazutb_siem.Base.Int.{ℤ, pos, negsuc, ◌+ℤ◌}
use kazutb_siem.Base.Text.{◌<>◌}
use kazutb_siem.Core.{severity_from_risk, CanonicalEvent, RiskFactor, Finding, EntitySummary, Alert}
use kazutb_siem.Store.State.{append_new}
use kazutb_siem.Soc.Lifecycle.{acknowledgement_window}
use kazutb_siem.Pipeline.Detect.{DetectionMatch}

unfoldable pub sum_deltas : List RiskFactor → ℤ
unfolding ◌+ℤ◌
sum_deltas [] = pos 0
sum_deltas (f ∷ fs) = f.delta +ℤ sum_deltas fs

unfoldable pub clamp_risk : ℤ → ℕ
clamp_risk (pos n) = if ltb 100 n then 100 else n
clamp_risk (negsuc n) = 0

unfoldable pub make_finding : String → ℕ → CanonicalEvent → DetectionMatch → Finding
unfolding clamp_risk sum_deltas severity_from_risk
make_finding id now event found =
    let risk = clamp_risk (sum_deltas found.factors) in
    record {
      id = id;
      tenant_id = event.tenant_id;
      event_id = event.id;
      rule = record { id = found.rule.id; title = found.rule.title; version = found.rule.version };
      title = found.rule.title;
      severity = severity_from_risk risk;
      confidence = found.rule.confidence;
      mitre = found.rule.mitre;
      matched_fields = found.matched_fields;
      risk_score = risk;
      risk_breakdown = found.factors;
      created_at = now;
    }

-- The correlated events, each once, or the event itself.
unfoldable pub alert_event_ids : CanonicalEvent → List String → List String
unfolding append_new
alert_event_ids event correlated =
    let ids = append_new [] correlated in if eqb (length ids) 0 then event.id ∷ [] else ids

unfoldable pub alert_entity : CanonicalEvent → EntitySummary
alert_entity event =
    let device : EntitySummary = record {
      kind = "device";
      id = event.device.id;
      name = event.device.hostname;
      label = event.device.department;
    } in
    let subject : EntitySummary =
      if not (event.user.name == "")
      then record {
        kind = "user";
        id = event.user.id;
        name = event.user.name;
        label = event.device.hostname;
      }
      else device in
    if subject.name == ""
    then record { kind = "ip"; id = ""; name = event.src_endpoint.ip; label = "" }
    else subject

unfoldable pub alert_key : Finding → EntitySummary → String → String
alert_key finding entity discriminator =
    let key = finding.rule.id <> "|" <> entity.kind <> "|" <> entity.name in
    if discriminator == "" then key else key <> "|" <> discriminator

-- The candidate and its key.
unfoldable pub make_alert :
    String → ℕ → CanonicalEvent → Finding → List String → String → Alert × String
unfolding alert_event_ids alert_entity alert_key acknowledgement_window
make_alert id now event finding correlated discriminator =
    let ids = alert_event_ids event correlated in
    let entity = alert_entity event in
    (
      record {
        id = id;
        tenant_id = event.tenant_id;
        title = finding.title;
        severity = finding.severity;
        risk_score = finding.risk_score;
        risk_breakdown = finding.risk_breakdown;
        status = "NEW";
        disposition = "";
        assignee = "";
        rule = finding.rule;
        mitre = finding.mitre;
        entity = entity;
        finding_ids = finding.id ∷ [];
        event_ids = ids;
        event_count = length ids;
        first_seen = event.event_time;
        last_seen = event.event_time;
        sla = record {
          acknowledge_by = now + acknowledgement_window finding.severity;
          breached = false;
          acknowledged = none;
        };
        version = 1;
        created_at = now;
        updated_at = now;
      },
      alert_key finding entity discriminator,
    )
