-- ===== src/Hunt.antt =====
-- internal/hunt: the hunt requests of core/hunt.go, which query.go checks and compiles to SQL.
pub mod Request
pub mod Fields
pub mod Validate
pub mod Compile
pub mod Marks
pub mod Columns
pub mod Placeholders
pub mod Statement
pub mod Masking
pub mod Bounded
pub mod Valid
pub mod Predicates
pub mod Normalize
pub mod Ranges
