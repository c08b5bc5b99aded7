-- ===== src/Pipeline.antt =====
-- internal/pipeline/engine.go: the embedded executor, over the repository in memory.
pub mod Rules
pub mod Normalize
pub mod Detect
pub mod Outcome
pub mod Ingest
pub mod NormalForm
pub mod Risk
pub mod Duplicates
