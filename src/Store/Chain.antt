-- ===== src/Store/Chain.antt =====
-- The audit chain of each tenant: every method of the store keeps it verifiable.
use kazutb_siem.Base.{ℕ, String, ◌≡◌, refl, true, some, List, [], ◌∷◌, ◌++◌, arith, eq_iff, eq_refl}
use kazutb_siem.Base.Map.{lookup, insert}
use kazutb_siem.Core.{AuditEntry}
use kazutb_siem.Store.State.{new_memory, slice_at, text_at, ensure_tenant, reset_tenant, Memory}
use kazutb_siem.Store.Laws.{slice_at-insert, text_at-insert}
use kazutb_siem.Store.Rules.{set_rules}
use kazutb_siem.Store.Events.{put_event, put_finding}
use kazutb_siem.Store.Alerts.{upsert_alert, mutate_alert}
use kazutb_siem.Store.Incidents.{store_incident, mutate_incident}
use kazutb_siem.Store.Audit.{audit_hash, append_audit, verify_chain, verify_audit, Codec}
use kazutb_siem.Store.Reachable.{
  sets_rules, appends_audit, mutates_incident, mutates_alert, upserts_alert, Step, Reach,
  puts_event, puts_finding, stores_incident, resets, here, next,
}

module _ (c : Codec) where
  verify_chain-snoc :
      (p q : String) (xs : List AuditEntry) (x : AuditEntry)
      → verify_chain c p xs ≡ some q
      → x.previous_hash ≡ q
      → x.hash ≡ audit_hash c x
      → verify_chain c p (xs ++ x ∷ []) ≡ some x.hash
  unfolding verify_chain
  verify_chain-snoc p q [] x h e k =
      ground (arith, h, e, k, eq_iff x.previous_hash p, eq_iff (audit_hash c x) x.hash)
  verify_chain-snoc p q (y ∷ xs) x h e k =
      ground (arith, h, verify_chain-snoc y.hash q xs x (ground (arith, h)) e k)

  -- The chain from "" ends at the tenant's head.
  IsLinked : Memory → String → Type 0
  IsLinked m t = verify_chain c "" (slice_at t m.audit) ≡ some (text_at t m.audit_heads)

  verify_audit-IsLinked : (m : Memory) (t : String) → IsLinked m t → verify_audit c t m ≡ true
  unfolding verify_audit IsLinked
  verify_audit-IsLinked m t h = ground (arith, h, eq_refl (text_at t m.audit_heads))

  module _ (new_id : String) (now : ℕ) (entry : AuditEntry) (m : Memory) where
    sealed_hash :
        (append_audit c new_id now entry m).0.hash
        ≡ audit_hash c (append_audit c new_id now entry m).0
    unfolding append_audit audit_hash
    sealed_hash = refl

    sealed_previous :
        (append_audit c new_id now entry m).0.previous_hash ≡ text_at entry.tenant_id m.audit_heads
    unfolding append_audit
    sealed_previous = refl

    audit_after :
        (append_audit c new_id now entry m).1.audit
        ≡ insert entry.tenant_id
            (slice_at entry.tenant_id m.audit ++ (append_audit c new_id now entry m).0 ∷ [])
            m.audit
    unfolding append_audit
    audit_after = refl

    heads_after :
        (append_audit c new_id now entry m).1.audit_heads
        ≡ insert entry.tenant_id (append_audit c new_id now entry m).0.hash m.audit_heads
    unfolding append_audit
    heads_after = refl

    append_audit-IsLinked :
        ((t : String) → IsLinked m t)
        → (t : String) → IsLinked (append_audit c new_id now entry m).1 t
    unfolding IsLinked
    append_audit-IsLinked h t =
        rw (audit_after, heads_after)
          (ground (
            arith,
            h t,
            eq_iff entry.tenant_id t,
            slice_at-insert entry.tenant_id t
                (slice_at entry.tenant_id m.audit ++ (append_audit c new_id now entry m).0 ∷ [])
                m.audit,
            text_at-insert entry.tenant_id t (append_audit c new_id now entry m).0.hash
                m.audit_heads,
            verify_chain-snoc "" (text_at entry.tenant_id m.audit_heads)
                (slice_at entry.tenant_id m.audit) (append_audit c new_id now entry m).0
                (h entry.tenant_id) sealed_previous sealed_hash,
          ))

  reset_tenant-IsLinked :
      (t : String) (m : Memory)
      → ((u : String) → IsLinked m u)
      → (u : String) → IsLinked (reset_tenant t m) u
  unfolding reset_tenant IsLinked verify_chain
  reset_tenant-IsLinked t m h u =
      ground (arith, h u, slice_at-insert t u [] m.audit, text_at-insert t u "" m.audit_heads)

  -- The methods that write no audit entry leave the chains as they are.
  SameAudit : Memory → Memory → Type 0
  SameAudit m n = (n.audit ≡ m.audit) × (n.audit_heads ≡ m.audit_heads)

  SameAudit-IsLinked : (m n : Memory) → SameAudit m n → (t : String) → IsLinked m t → IsLinked n t
  unfolding SameAudit IsLinked
  SameAudit-IsLinked m n s t h = rw (s.0, s.1) h

  ensure_tenant-SameAudit : (t : String) (m : Memory) → SameAudit m (ensure_tenant t m)
  unfolding SameAudit ensure_tenant
  ensure_tenant-SameAudit t m = ground arith

  Step-IsLinked :
      {t : String} {m n : Memory}
      → Step c t m n
      → ((u : String) → IsLinked m u)
      → (u : String) → IsLinked n u
  unfolding put_event put_finding upsert_alert mutate_alert store_incident mutate_incident set_rules
      SameAudit
  Step-IsLinked (puts_event e m) h u =
      SameAudit-IsLinked m _ (ground (arith, ensure_tenant-SameAudit e.tenant_id m)) u (h u)
  Step-IsLinked (puts_finding f m) h u =
      SameAudit-IsLinked m _ (ground (arith, ensure_tenant-SameAudit f.tenant_id m)) u (h u)
  Step-IsLinked (upserts_alert a key window m) h u =
      SameAudit-IsLinked m _ (ground (arith, ensure_tenant-SameAudit a.tenant_id m)) u (h u)
  Step-IsLinked (mutates_alert t id expected now f m) h u =
      SameAudit-IsLinked m _ (ground arith) u (h u)
  Step-IsLinked (stores_incident i m) h u =
      SameAudit-IsLinked m _ (ground (arith, ensure_tenant-SameAudit i.tenant_id m)) u (h u)
  Step-IsLinked (mutates_incident t id expected now f m) h u =
      SameAudit-IsLinked m _ (ground arith) u (h u)
  Step-IsLinked (appends_audit new_id now e m) h u = append_audit-IsLinked new_id now e m h u
  Step-IsLinked (resets t m) h u = reset_tenant-IsLinked t m h u
  Step-IsLinked (sets_rules t rules m) h u =
      SameAudit-IsLinked m (set_rules rules m) (refl, refl) u (h u)

  Reach-IsLinked : {m : Memory} → Reach c new_memory m → (t : String) → IsLinked m t
  unfolding IsLinked verify_chain slice_at text_at lookup
  Reach-IsLinked here t = refl
  Reach-IsLinked (next u r s) t = Step-IsLinked s (Reach-IsLinked r) t

-- After any sequence of the store's methods that starts with an empty store, for whatever tenants
-- and with whatever arguments, VerifyAudit accepts the log of every tenant.
pub Reach-verify_audit :
    (c : Codec) {m : Memory} → Reach c new_memory m → (t : String) → verify_audit c t m ≡ true
Reach-verify_audit c {m} r t = verify_audit-IsLinked c m t (Reach-IsLinked c r t)
