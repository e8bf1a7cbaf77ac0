-- ===== src/RunLedger.antt =====
-- The forensic run ledger of runtime/run_ledger.py.
mod Digits
mod File
mod Start
mod Context
mod Outcomes
mod Recording
pub mod Persisted
pub mod Numbered
pub mod Bare
pub mod Growth
pub mod Reach
pub mod FreshRun
pub mod Written
pub mod Traced
pub mod NoLineage
pub mod ContextTrip
pub mod Distinct
pub mod Listed
pub mod Counted
mod Traces
mod Entities
mod Lineage
mod Findings
mod Candidates
mod Listing
mod Forensic
unfoldable pub use Digits.*
unfoldable pub use File.*
unfoldable pub use Start.*
unfoldable pub use Context.*
unfoldable pub use Outcomes.*
unfoldable pub use Traces.*
unfoldable pub use Entities.*
unfoldable pub use Lineage.*
unfoldable pub use Findings.*
unfoldable pub use Candidates.*
unfoldable pub use Listing.*
unfoldable pub use Forensic.*
unfoldable pub use Recording.*
