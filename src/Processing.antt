-- ===== src/Processing.antt =====
-- runtime/processing.py: candidate events are prepared, validated, appended to the ledger one by one,
-- and projected. `canonicalize` stands for `canonicalize_event` of runtime/canonicalization.py. The
-- entry of the run ledger and the files of the projection are left out.
mod Table
mod Types
mod Loop
mod Batch
mod Trace
mod Whole
pub mod Alignment
pub mod Stages
pub mod Step
pub mod Growth
pub mod Counts
pub mod Traceable
pub mod Numbers
pub mod Followed
unfoldable pub use Table.*
unfoldable pub use Types.*
unfoldable pub use Loop.*
unfoldable pub use Batch.*
unfoldable pub use Trace.*
unfoldable pub use Whole.*
