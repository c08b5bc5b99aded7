-- ===== src/Soc/Lifecycle.antt =====
-- The inputs of the service, the two transition tables and the helpers below the service's methods.
use kazutb_siem.Base.{
  ℕ, ◌*◌, String, Bool, true, false, ◌&&◌, ◌||◌, not, none, some, List, [], ◌∷◌, ◌==◌, ltb,
  if◌then◌else◌, has,
}
use kazutb_siem.Base.Text.{trim_space, to_upper, text_lt}
use kazutb_siem.Core.{
  Severity, severity_critical, severity_high, severity_medium, EntitySummary, SlaInfo,
}
use kazutb_siem.Store.State.{append_new}

pub record AlertPatch : Type 0 where
  pub status : String
  pub assignee : String
  pub disposition : String
  pub comment : String
  pub version : ℕ

pub record CreateIncidentInput : Type 0 where
  pub title : String
  pub summary : String
  pub assignee : String
  pub alert_ids : List String
  pub request_id : String

pub record IncidentPatch : Type 0 where
  pub status : String
  pub assignee : String
  pub disposition : String
  pub closure_reason : String
  pub comment : String
  pub version : ℕ
  pub request_id : String

-- The map of maps in validAlertTransition; a status that is no key allows nothing.
unfoldable pub alert_targets : String → List String
alert_targets current =
    if current == "NEW"
    then "ACKNOWLEDGED" ∷ "IN_PROGRESS" ∷ "CLOSED" ∷ []
    else if current == "ACKNOWLEDGED"
    then "IN_PROGRESS" ∷ "CLOSED" ∷ []
    else if current == "IN_PROGRESS"
    then "CLOSED" ∷ []
    else []

unfoldable pub valid_alert_transition : String → String → Bool
unfolding alert_targets has
valid_alert_transition current next = current == next || has next (alert_targets current)

-- The map in AllowedTransitions, at an upper-case status.
unfoldable pub transitions : String → List String
transitions status =
    if status == "NEW"
    then "TRIAGE" ∷ []
    else if status == "TRIAGE"
    then "INVESTIGATION" ∷ "CLOSED" ∷ []
    else if status == "INVESTIGATION"
    then "CONTAINMENT" ∷ "RECOVERY" ∷ "CLOSED" ∷ []
    else if status == "CONTAINMENT"
    then "ERADICATION" ∷ "RECOVERY" ∷ []
    else if status == "ERADICATION"
    then "RECOVERY" ∷ []
    else if status == "RECOVERY"
    then "CLOSED" ∷ []
    else []

unfoldable pub allowed_transitions : String → List String
unfolding transitions to_upper
allowed_transitions status = transitions (to_upper status)

-- Minutes and hours in nanoseconds.
abbrev pub minute : ℕ
minute = 60000000000

unfoldable pub acknowledgement_window : Severity → ℕ
acknowledgement_window severity =
    if severity == severity_critical
    then 15 * minute
    else if severity == severity_high
    then 30 * minute
    else if severity == severity_medium
    then 240 * minute
    else 1440 * minute

-- sort.Strings, for texts that differ from one another
unfoldable pub insert_text : String → List String → List String
unfolding text_lt
insert_text s [] = s ∷ []
insert_text s (t ∷ ts) =
    let later = insert_text s ts in if text_lt t s then t ∷ later else s ∷ t ∷ ts

unfoldable pub sort_texts : List String → List String
unfolding insert_text
sort_texts [] = []
sort_texts (s ∷ ss) = insert_text s (sort_texts ss)

unfoldable pub unique_sorted : List String → List String
unfolding append_new sort_texts
unique_sorted values = sort_texts (append_new [] values)

unfoldable pub texts_equal : List String → List String → Bool
texts_equal [] [] = true
texts_equal [] (t ∷ ts) = false
texts_equal (s ∷ ss) [] = false
texts_equal (s ∷ ss) (t ∷ ts) = s == t && texts_equal ss ts

unfoldable pub entity_exists : List EntitySummary → EntitySummary → Bool
entity_exists [] candidate = false
entity_exists (value ∷ rest) candidate =
    (value.kind == candidate.kind && value.name == candidate.name) || entity_exists rest candidate

unfoldable pub first_non_empty : List String → String
unfolding trim_space
first_non_empty [] = ""
first_non_empty (value ∷ rest) =
    if not (trim_space value == "") then trim_space value else first_non_empty rest

-- The acknowledgement is recorded once, and breaches the agreement if it comes after the deadline.
unfoldable pub acknowledge : ℕ → SlaInfo → SlaInfo
acknowledge now sla = elim sla.acknowledged [
  | some _ ↦ sla
  | none ↦ record sla { acknowledged = some now; breached = ltb sla.acknowledge_by now }
]
