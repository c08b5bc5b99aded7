-- ===== src/Soc.antt =====
-- internal/soc/service.go: triage of alerts and the life of incidents, over the repository of
-- Store.Repository. `UpdateAlert` is Soc.Triage, `CreateIncident` Soc.Creation and
-- `UpdateIncident` Soc.Response.
pub mod Lifecycle
pub mod Triage
pub mod Creation
pub mod Response
pub mod AlertRules
pub mod AlertUpdates
pub mod IncidentRules
pub mod Invariants
pub mod Closure
pub mod IncidentUpdates
pub mod Erasure
pub mod EmptyIncident
