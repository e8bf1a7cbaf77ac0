-- ===== src/Tasks/Queue.antt =====
-- TaskQueueStore of runtime/tasks.py: the file, the moves of its tasks, and new tasks.
mod Storage
mod Moves
mod Enqueue
unfoldable pub use Storage.*
unfoldable pub use Moves.*
unfoldable pub use Enqueue.*
