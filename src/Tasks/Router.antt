-- ===== src/Tasks/Router.antt =====
-- CandidateRouter of runtime/tasks.py.
mod Candidate
mod Guards
mod Route
mod Run
mod Summary
pub mod Limit
pub mod Stored
mod Refused
pub mod Snapshot
pub mod Counts
unfoldable pub use Candidate.*
unfoldable pub use Guards.*
unfoldable pub use Route.*
unfoldable pub use Run.*
unfoldable pub use Summary.*
