-- ===== src/Store/Audit.antt =====
-- AppendAudit, ListAudit, VerifyAudit and auditHash. The digest, the rendering of the metadata and
-- that of the time are arguments: the first stands for SHA-256 in hexadecimal digits, the others
-- for json.Marshal and time.RFC3339Nano.
use mathlib.Core.List.{reverse}
use kazutb_siem.Base.{
  ℕ, min, String, Bool, false, ◌||◌, not, Option, none, some, List, [], ◌∷◌, ◌++◌, ◌==◌, eqb,
  if◌then◌else◌, length, take,
}
use kazutb_siem.Base.Map.{insert}
use kazutb_siem.Base.Text.{◌<>◌, joined}
use kazutb_siem.Core.{Fields, AuditEntry}
use kazutb_siem.Store.State.{slice_at, text_at, normalized_limit, Memory}

pub record Codec : Type 0 where
  pub sha256_hex : String → String
  pub marshal : Fields → String
  pub rfc3339 : ℕ → String

-- The text below the first separator of what is digested.
unfoldable pub audit_body : Codec → AuditEntry → String
unfolding joined
audit_body c entry = joined "|" (
    entry.id
    ∷ entry.tenant_id
    ∷ entry.actor
    ∷ entry.action
    ∷ entry.resource_type
    ∷ entry.resource_id
    ∷ entry.outcome
    ∷ c.rfc3339 entry.created_at
    ∷ c.marshal entry.metadata
    ∷ [])

unfoldable pub audit_hash : Codec → AuditEntry → String
unfolding audit_body
audit_hash c entry = c.sha256_hex (entry.previous_hash <> "|" <> audit_body c entry)

-- `new_id` and `now` are what NewID and the clock return.
unfoldable pub append_audit : Codec → String → ℕ → AuditEntry → Memory → AuditEntry × Memory
unfolding audit_hash text_at slice_at insert
append_audit c new_id now entry m =
    let tenant = entry.tenant_id in
    let named = record entry { id = if entry.id == "" then new_id else entry.id } in
    let timed = record named {
      created_at = if eqb entry.created_at 0 then now else entry.created_at;
    } in
    let linked = record timed { previous_hash = text_at tenant m.audit_heads } in
    let sealed = record linked { hash = audit_hash c linked } in
    (
      sealed,
      record m {
        audit = insert tenant (slice_at tenant m.audit ++ sealed ∷ []) m.audit;
        audit_heads = insert tenant sealed.hash m.audit_heads;
      },
    )

unfoldable pub list_audit : String → ℕ → Memory → List AuditEntry
unfolding slice_at normalized_limit
list_audit tenant limit m =
    take (min (normalized_limit limit) (length (slice_at tenant m.audit)))
      (reverse (slice_at tenant m.audit))

-- The loop of VerifyAudit; it returns what `previous` holds after the last entry.
unfoldable pub verify_chain : Codec → String → List AuditEntry → Option String
unfolding audit_hash
verify_chain c previous [] = some previous
verify_chain c previous (entry ∷ rest) =
    let later = verify_chain c entry.hash rest in
    if not (entry.previous_hash == previous) || not (audit_hash c entry == entry.hash)
    then none
    else later

unfoldable pub verify_audit : Codec → String → Memory → Bool
unfolding verify_chain slice_at text_at
verify_audit c tenant m = elim (verify_chain c "" (slice_at tenant m.audit)) [
  | none ↦ false
  | some previous ↦ previous == text_at tenant m.audit_heads
]
