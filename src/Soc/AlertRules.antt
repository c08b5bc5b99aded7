-- ===== src/Soc/AlertRules.antt =====
-- What a patch of an alert can do.
use kazutb_siem.Base.{
  text_cases, sym, ◌⊎◌, subst, else_of, refl, ◌∙◌, if◌then◌else◌, Bool-cases, eqb_of_ne, ℕ, String,
  ◌≡◌, ◌≢◌, inl, inr, true, false, some, arith, ◌==◌, eq_iff, has,
}
use kazutb_siem.Base.Text.{trim_space, to_upper}
use kazutb_siem.Core.{Result, err, Alert, ok}
use kazutb_siem.Soc.Lifecycle.{alert_targets, valid_alert_transition, acknowledge, AlertPatch}
use kazutb_siem.Soc.Triage.{change_alert_status, patch_alert_fields, patch_alert}

change_alert_status_lem :
    (now : ℕ) (next disposition : String) (alert changed : Alert)
    → change_alert_status now next disposition alert ≡ ok changed
    → (valid_alert_transition alert.status next ≡ true)
      × ((changed.status ≡ next) × (next ≡ "CLOSED" → (trim_space disposition == "") ≡ false))
unfolding change_alert_status
change_alert_status_lem now next disposition alert changed e =
    ground (arith, e, eq_iff next "CLOSED")

closed_targets : (next : String) → valid_alert_transition "CLOSED" next ≡ true → next ≡ "CLOSED"
unfolding valid_alert_transition alert_targets has
closed_targets next e = ground (arith, e, eq_iff "CLOSED" next)

-- A patch that succeeds has moved the alert, and leaves the status and the agreement as moved.
patch_alert_moved :
    (now : ℕ) (patch : AlertPatch) (alert changed : Alert)
    → patch_alert now patch alert ≡ ok changed
    → (moved : Alert) × (((if patch.status == ""
            then ok alert
            else change_alert_status now (to_upper patch.status) patch.disposition alert)
          ≡ ok moved)
        × ((changed.status ≡ moved.status)
            × (changed.disposition ≡ (
                if patch.disposition == ""
                then moved.disposition
                else to_upper patch.disposition))))
unfolding patch_alert patch_alert_fields
patch_alert_moved now patch alert changed e =
    fields
      (if patch.status == ""
        then ok alert
        else change_alert_status now (to_upper patch.status) patch.disposition alert)
      e
  where
    fields :
        (r : Result Alert)
        → elim r [ err error ↦ err error | ok c ↦ ok (patch_alert_fields patch c) ] ≡ ok changed
        → (moved : Alert) × ((r ≡ ok moved)
            × ((changed.status ≡ moved.status)
                × (changed.disposition ≡ (
                    if patch.disposition == ""
                    then moved.disposition
                    else to_upper patch.disposition))))
    fields (err error) h = ground (arith, h)
    fields (ok moved) h = (moved, (refl, (ground (arith, h), ground (arith, h))))

alert_moves :
    (current next : String)
    → valid_alert_transition current next ≡ true
    → (next ≡ current) ⊎ (has next (alert_targets current) ≡ true)
unfolding valid_alert_transition
alert_moves current next e = elim (text_cases current next) [
  | inl (same, test) ↦ inl (sym same)
  | inr (other, test) ↦ inr (ground (arith, e, test))
]

-- If a patch of an alert names a status and succeeds, then the alert is in that status, in upper
-- case, which it was in before or to which the table has an edge from the status before; and if
-- that is CLOSED, then the patch has a disposition that is not blank.
pub patch_alert-transition :
    (now : ℕ) (patch : AlertPatch) (alert changed : Alert)
    → patch.status ≢ ""
    → patch_alert now patch alert ≡ ok changed
    → ((to_upper patch.status ≡ alert.status)
        ⊎ (has (to_upper patch.status) (alert_targets alert.status) ≡ true))
      × ((changed.status ≡ to_upper patch.status)
          × (to_upper patch.status ≡ "CLOSED" → (trim_space patch.disposition == "") ≡ false))
patch_alert-transition now patch alert changed named e =
    let (moved, (f, (same, _))) = patch_alert_moved now patch alert changed e in
    let g = else_of (patch.status == "") (ok alert) _ (eqb_of_ne patch.status "" named) f in
    let (edge, (next, details)) =
      change_alert_status_lem now (to_upper patch.status) patch.disposition alert moved g in
    (alert_moves alert.status (to_upper patch.status) edge, (same ∙ next, details))

-- A closed alert stays closed: a patch that succeeds on it leaves the status CLOSED.
pub patch_alert-closed :
    (now : ℕ) (patch : AlertPatch) (alert changed : Alert)
    → alert.status ≡ "CLOSED"
    → patch_alert now patch alert ≡ ok changed
    → changed.status ≡ "CLOSED"
patch_alert-closed now patch alert changed closed e =
    let (moved, (f, (same, _))) = patch_alert_moved now patch alert changed e in
    elim (Bool-cases (patch.status == "")) [
      | inl blank ↦ same ∙ ground (arith, f, blank, closed)
      | inr named ↦
          let g = else_of (patch.status == "") (ok alert) _ named f in
          let (edge, (next, _)) =
            change_alert_status_lem now (to_upper patch.status) patch.disposition alert moved g in
          same
          ∙ next
          ∙ closed_targets (to_upper patch.status)
              (subst (λ s. valid_alert_transition s (to_upper patch.status) ≡ true) closed edge)
    ]

-- The time of the first acknowledgement and the deadline never change once the alert was
-- acknowledged.
pub patch_alert-acknowledged :
    (now time : ℕ) (patch : AlertPatch) (alert changed : Alert)
    → alert.sla.acknowledged ≡ some time
    → patch_alert now patch alert ≡ ok changed
    → changed.sla ≡ alert.sla
unfolding patch_alert patch_alert_fields change_alert_status acknowledge
patch_alert-acknowledged now time patch alert changed seen e = ground (arith, e, seen)
