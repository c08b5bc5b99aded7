-- ===== src/Soc/IncidentUpdates.antt =====
-- UpdateIncident as a whole: the version check, the transition and the audit entry.
use kazutb_siem.Base.{
  ◌+◌, String, ◌≡◌, ◌≢◌, refl, ◌⊎◌, inl, inr, none, some, [], ◌∷◌, ◌++◌, arith, eq_iff,
  Option-cases, has, true,
}
use kazutb_siem.Base.Map.{lookup₂, insert₂}
use kazutb_siem.Base.Text.{to_upper}
use kazutb_siem.Core.{Incident, AuditEntry, Error, ok, err}
use kazutb_siem.Store.State.{slice_at, Memory}
use kazutb_siem.Store.Laws.{slice_at-insert}
use kazutb_siem.Store.Cases.{mutate_incident_cases, fits_version}
use kazutb_siem.Store.Action.{Env}
use kazutb_siem.Store.Audit.{Codec}
use kazutb_siem.Store.Audit
use kazutb_siem.Soc.Lifecycle.{allowed_transitions, IncidentPatch}
use kazutb_siem.Soc.Response.{patch_incident, update_entry, update_incident}
use kazutb_siem.Soc.IncidentRules.{patch_incident-transition}
use kazutb_siem.Soc.Closure.{HasDetails, patch_incident-HasDetails}
use kazutb_siem.Soc.Invariants.{patch_incident-KeepsIncident}

module _ (codec : Codec) (env : Env) (tenant incident_id actor : String) (patch : IncidentPatch)
    (m : Memory) where
  open env use {clock, new_id, ctx}

  -- UpdateIncident changes the incident and the audit log together: if the context is alive at the
  -- audit entry, then either the call fails and the store is as before, or a stored incident was
  -- at the version that the patch expects, or the patch expects none; the call returns what the
  -- patch makes of it, under the same identifier, with the next version and in a status that it
  -- had or that its old status allows; if the patch asks for CLOSED, then it or the old incident has
  -- a disposition and a closure reason that are not blank; the store has the new incident in place
  -- of the old one and no other change but the audit logs and their heads, where the tenant's log
  -- has one more entry, which names the incident and the actor.
  pub update_incident_atomic :
      ctx 1 ≡ none
      → ((e : Error) × (update_incident codec env tenant incident_id actor patch m ≡ (err e, m)))
        ⊎ ((old : Incident) × (new : Incident) × (m' : Memory) × (entry : AuditEntry)
            × (update_incident codec env tenant incident_id actor patch m
                ≡ (ok (record new { version = new.version + 1; updated_at = clock 1 }), m'))
            × (lookup₂ tenant incident_id m.incidents ≡ some old)
            × (fits_version patch.version old.version ≡ true)
            × (patch_incident env actor patch old ≡ ok new)
            × (new.id ≡ old.id)
            × ((new.status ≡ old.status)
                ⊎ ((new.status ≡ to_upper patch.status)
                    × (has new.status (allowed_transitions old.status) ≡ true)))
            × ((to_upper patch.status ≢ "CLOSED") ⊎ HasDetails patch old)
            × (m' ≡ record m {
              incidents =
                  insert₂ tenant incident_id
                    (record new { version = new.version + 1; updated_at = clock 1 })
                    m.incidents;
              audit = m'.audit;
              audit_heads = m'.audit_heads;
            })
            × (slice_at tenant m'.audit ≡ slice_at tenant m.audit ++ entry ∷ [])
            × (entry.resource_id ≡ new.id)
            × (entry.actor ≡ actor))
  unfolding update_incident update_entry Audit.append_audit
  update_incident_atomic alive_1 = elim (Option-cases (ctx 0)) [
    | inr (e, ended) ↦ inl (e, ground (arith, ended))
    | inl alive_0 ↦
        elim (mutate_incident_cases tenant incident_id patch.version (clock 1)
          (patch_incident env actor patch) m) [
            | inl (e, failed) ↦ inl (e, ground (arith, alive_0, failed))
            | inr (old, new, there, fits, made, done) ↦
                let saved = record new { version = new.version + 1; updated_at = clock 1 } in
                let entry = update_entry tenant actor patch saved in
                let m₁ = record m { incidents = insert₂ tenant incident_id saved m.incidents } in
                let (sealed, m₂) = Audit.append_audit codec (new_id 3 "aud") (clock 2) entry m₁ in
                inr (
                  old,
                  new,
                  m₂,
                  sealed,
                  ground (arith, alive_0, alive_1, done),
                  there,
                  fits,
                  made,
                  (patch_incident-KeepsIncident env actor patch old new made).1,
                  (patch_incident-transition env actor patch old new made).0,
                  patch_incident-HasDetails env actor patch old new made,
                  refl,
                  ground (
                    arith,
                    slice_at-insert tenant tenant (slice_at tenant m.audit ++ sealed ∷ []) m.audit,
                    eq_iff tenant tenant,
                  ),
                  refl,
                  refl,
                )
          ]
  ]
