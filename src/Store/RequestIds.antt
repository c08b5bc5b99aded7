-- ===== src/Store/RequestIds.antt =====
-- What the audit chain does not cover.
use kazutb_siem.Base.{String, ◌≡◌, refl, List, [], ◌∷◌, map, arith}
use kazutb_siem.Core.{AuditEntry}
use kazutb_siem.Store.Audit.{audit_body, audit_hash, verify_chain, Codec}

-- The entry with another request identifier.
unfoldable pub with_request : String → AuditEntry → AuditEntry
with_request id e = record e { request_id = id }

-- Replacing the request identifier of every entry of a log by any text does not change the verdict
-- of the verification.
pub verify_chain-with_request :
    (c : Codec) (id previous : String) (entries : List AuditEntry)
    → verify_chain c previous (map (with_request id) entries) ≡ verify_chain c previous entries
unfolding verify_chain with_request audit_hash audit_body
verify_chain-with_request c id previous [] = refl
verify_chain-with_request c id previous (e ∷ rest) =
    ground (arith, verify_chain-with_request c id e.hash rest)
