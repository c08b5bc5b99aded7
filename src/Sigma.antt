-- ===== src/Sigma.antt =====
-- internal/detection/compiler.go: Sigma rules, compiled to selections and a condition over them.
pub mod Glob
pub mod Values
pub mod Selection
pub mod Quantifiers
pub mod Condition
pub mod Parser
pub mod Correlation
pub mod Compile
pub mod RoundTrip
pub mod Sound
pub mod Bounds
pub mod WellFormed
