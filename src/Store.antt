-- ===== src/Store.antt =====
-- internal/store/memory.go: the embedded store of one process. Each method holds the store's mutex
-- from its first line to its last, so a method is one function from the old state to the new one.
pub mod State
pub mod Scan
pub mod Rules
pub mod Events
pub mod Alerts
pub mod Incidents
pub mod Audit
pub mod Overview
pub mod Action
pub mod Repository
pub mod Laws
pub mod Indexed
pub mod WellFormed
pub mod Cases
pub mod Preservation
pub mod Reachable
pub mod Chain
pub mod Keys
pub mod Tamper
pub mod Isolation
pub mod Separation
pub mod Listing
pub mod FirstEvent
pub mod Versions
pub mod Texts
pub mod Dedup
pub mod Safe
pub mod RequestIds
