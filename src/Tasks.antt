-- ===== src/Tasks.antt =====
-- The task queue of runtime/tasks.py: the tasks, their order, and the store that keeps them.
pub mod Text
pub mod Types
pub mod Keys
pub mod Dicts
pub mod Queue
pub mod RoundTrip
pub mod Lookup
pub mod Moved
pub mod Lifecycle
pub mod Claim
pub mod Enqueued
pub mod Resubmit
pub mod Reach
pub mod Recovery
mod Replace
pub mod Collapse
pub mod Planner
pub mod Router
pub mod Start
