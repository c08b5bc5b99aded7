-- ===== src/Store/Dedup.antt =====
-- UpsertAlert: what merging does to an alert, and that a second sighting meets the first.
use kazutb_siem.Base.{
  ℕ, ◌+◌, max, String, ◌≡◌, ◌≢◌, true, ◌&&◌, ◌||◌, not, some, ◌==◌, length, has, Distinct,
}
use kazutb_siem.Base.Map.{lookup₂}
use kazutb_siem.Core.{Alert}
use kazutb_siem.Store.State.{text_at, ensure_tenant, Memory}
use kazutb_siem.Store.Alerts.{within, dedup_entry}

-- b is a, seen once more in the candidate.
pub record Merges (candidate a b : Alert) : Type 0 where
  pub same_id : b.id ≡ a.id
  pub same_status : b.status ≡ a.status
  pub next_version : b.version ≡ a.version + 1
  pub counted : b.event_count ≡ length b.event_ids
  pub highest_risk : b.risk_score ≡ max a.risk_score candidate.risk_score
  pub events :
      (e : String)
      → has e b.event_ids ≡ (has e a.event_ids || (not (e == "") && has e candidate.event_ids))
  pub distinct : Distinct a.event_ids → Distinct b.event_ids

-- The alert a takes the candidate in: the index has its identifier for the key, the tenant has an
-- alert with that identifier, which is not closed and was last seen within the window.
pub record TakesIn (candidate : Alert) (key : String) (window : ℕ) (m : Memory) (a : Alert)
    : Type 0 where
  pub named : text_at (dedup_entry candidate.tenant_id key) m.dedup ≢ ""
  pub stored :
      lookup₂ candidate.tenant_id (text_at (dedup_entry candidate.tenant_id key) m.dedup) m.alerts
      ≡ some a
  pub open_status : a.status ≢ "CLOSED"
  pub recent : within candidate.last_seen a.last_seen window ≡ true

module _ (candidate : Alert) (key : String) (window : ℕ) where
  module _ (m : Memory) where
    ready : Memory
    ready = ensure_tenant candidate.tenant_id m
