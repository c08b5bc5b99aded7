-- ===== src/Correlation.antt =====
-- internal/detection/correlation.go: correlation over the records of one group, and the store of
-- the embedded executor.
pub mod Records
pub mod Temporal
pub mod Evaluate
pub mod Observe
pub mod Matching
pub mod Once
pub mod Trigger
