-- ===== src/Soc/Erasure.antt =====
-- A blank text in a patch is not the absence of one.
use kazutb_siem.Base.{String, ◌≡◌, refl, ◌≢◌, arith, eq_iff, eqb_of_ne}
use kazutb_siem.Base.Text.{trim_space}
use kazutb_siem.Core.{Incident, ok}
use kazutb_siem.Store.Action.{Env}
use kazutb_siem.Soc.Lifecycle.{allowed_transitions, IncidentPatch}
use kazutb_siem.Soc.Response.{note, assign_incident, patch_incident_fields, patch_incident}

-- A patch that names no status, and whose closure reason is blank but not empty, erases the closure
-- reason of the incident, also of a closed one, whose status it keeps.
pub patch_incident_erases :
    (env : Env) (actor : String) (patch : IncidentPatch) (incident : Incident)
    → patch.status ≡ ""
    → patch.closure_reason ≢ ""
    → trim_space patch.closure_reason ≡ ""
    → (changed : Incident) × (patch_incident env actor patch incident ≡ ok changed)
      × (changed.status ≡ incident.status)
      × (changed.closure_reason ≡ "")
unfolding patch_incident patch_incident_fields assign_incident note
patch_incident_erases env actor patch incident unnamed given blank =
    let patched =
      patch_incident_fields env actor patch (assign_incident env actor patch incident) in
    (
      record patched { allowed_transitions = allowed_transitions patched.status },
      rw ((eq_iff patch.status "").1 unnamed, patch_incident) refl,
      ground arith,
      ground (arith, blank, eqb_of_ne patch.closure_reason "" given),
    )
