-- ===== src/Core.antt =====
-- internal/core/model.go: the objects that the data plane and the SOC exchange. Times are numbers
-- of nanoseconds, 0 being Go's zero time; counters, scores and versions are unbounded numbers.
mod Scale
mod Event
mod Objects
mod Errors
unfoldable pub use Scale.*
unfoldable pub use Event.*
unfoldable pub use Objects.*
unfoldable pub use Errors.*
