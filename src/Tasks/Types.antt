-- ===== src/Tasks/Types.antt =====
-- TaskTarget and AuditTask of runtime/tasks.py.
mod Names
mod Target
mod Task
unfoldable pub use Names.*
unfoldable pub use Target.*
unfoldable pub use Task.*
