-- ===== src/Validators/Transition.antt =====
-- runtime/validators/transition.py: who may emit an event, which change of state it may ask for, and
-- the guards across entities. The rules, which the source loads from rules/transition_rules.yaml, are
-- an argument.
mod Tables
mod Entities
mod Requests
mod Guards
mod Validate
pub mod Matrix
pub mod Permissions
pub mod References
unfoldable pub use Tables.*
unfoldable pub use Entities.*
unfoldable pub use Requests.*
unfoldable pub use Guards.*
unfoldable pub use Validate.*
