-- ===== src/Soar.antt =====
-- internal/soar/validate.go: the checks of the nodes of a playbook, of their dependencies and of the
-- actions against their approvals.
pub mod Node
pub mod Validate
pub mod Ancestors
pub mod Enough
pub mod Actions
pub mod Approved
pub mod Complete
pub mod Maximum
pub mod Live
pub mod Cycle
pub mod Order
pub mod Acyclic
pub mod Found
