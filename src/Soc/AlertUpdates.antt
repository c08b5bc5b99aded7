-- ===== src/Soc/AlertUpdates.antt =====
-- UpdateAlert as a whole: the version check and the audit entry.
use kazutb_siem.Base.{
  ◌+◌, String, ◌≡◌, refl, ◌⊎◌, inl, inr, none, some, [], ◌∷◌, ◌++◌, arith, eq_iff, Option-cases,
}
use kazutb_siem.Base.Map.{lookup₂, insert₂}
use kazutb_siem.Core.{Alert, AuditEntry, Error, ok, err}
use kazutb_siem.Store.State.{slice_at, Memory}
use kazutb_siem.Store.Laws.{slice_at-insert}
use kazutb_siem.Store.Cases.{mutate_alert_cases}
use kazutb_siem.Store.Action.{Env}
use kazutb_siem.Store.Audit.{Codec}
use kazutb_siem.Store.Audit
use kazutb_siem.Soc.Lifecycle.{AlertPatch}
use kazutb_siem.Soc.Triage.{patch_alert, triage_entry, update_alert}

module _ (codec : Codec) (env : Env) (tenant alert_id actor request_id : String)
    (patch : AlertPatch) (m : Memory) where
  open env use {clock, new_id, ctx}

  -- UpdateAlert changes the alert and the audit log together: if the context is alive at the audit
  -- entry, then either the call fails and the store is as before, or it returns the alert that the
  -- patch makes of the stored one, with the next version; the store has that alert in place of the
  -- old one, and the tenant's audit log has one more entry, which names the alert and the actor.
  pub update_alert_atomic :
      ctx 1 ≡ none
      → ((e : Error) × (update_alert codec env tenant alert_id actor request_id patch m
            ≡ (err e, m)))
        ⊎ ((old : Alert) × (new : Alert) × (m' : Memory) × (entry : AuditEntry) × (update_alert
                codec env tenant alert_id actor request_id patch m
              ≡ (ok (record new { version = new.version + 1; updated_at = clock 1 }), m'))
            × (lookup₂ tenant alert_id m.alerts ≡ some old)
            × (patch_alert (clock 0) patch old ≡ ok new)
            × (m'.alerts
                ≡ insert₂ tenant alert_id
                    (record new { version = new.version + 1; updated_at = clock 1 })
                    m.alerts)
            × (slice_at tenant m'.audit ≡ slice_at tenant m.audit ++ entry ∷ [])
            × (entry.resource_id ≡ new.id)
            × (entry.actor ≡ actor))
  unfolding update_alert triage_entry Audit.append_audit
  update_alert_atomic alive_1 = elim (Option-cases (ctx 0)) [
    | inr (e, ended) ↦ inl (e, ground (arith, ended))
    | inl alive_0 ↦
        elim (mutate_alert_cases tenant alert_id patch.version (clock 1)
          (patch_alert (clock 0) patch) m) [
            | inl (e, failed) ↦ inl (e, ground (arith, alive_0, failed))
            | inr (old, new, there, _, made, done) ↦
                let saved = record new { version = new.version + 1; updated_at = clock 1 } in
                let entry = triage_entry tenant actor request_id patch saved in
                let m₁ = record m { alerts = insert₂ tenant alert_id saved m.alerts } in
                let (sealed, m₂) = Audit.append_audit codec (new_id 0 "aud") (clock 2) entry m₁ in
                inr (
                  old,
                  new,
                  m₂,
                  sealed,
                  ground (arith, alive_0, alive_1, done),
                  there,
                  made,
                  refl,
                  ground (
                    arith,
                    slice_at-insert tenant tenant (slice_at tenant m.audit ++ sealed ∷ []) m.audit,
                    eq_iff tenant tenant,
                  ),
                  refl,
                  refl,
                )
          ]
  ]
