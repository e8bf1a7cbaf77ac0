-- ===== src/Tasks/Planner.antt =====
-- TaskPlanner of runtime/tasks.py.
mod Refs
mod Limits
mod Follow
mod Plan
pub mod Budget
mod Added
mod Loop
mod Counts
pub mod Bounds
unfoldable pub use Refs.*
unfoldable pub use Limits.*
unfoldable pub use Follow.*
unfoldable pub use Plan.*
