-- ===== src/Examples.antt =====
-- Concrete inputs, and each property at one of them.
mod Data
mod Digest
mod Store
mod Soc
mod Sigma
mod Hunt
mod Playbook
mod Engine
mod Ingest
mod Incident
