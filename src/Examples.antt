-- ===== src/Examples.antt =====
-- Concrete ledgers, events and rules on which the theorems are applied.
mod Data
mod Store
mod Lock
mod Projection
mod Outcomes
mod Rejections
mod Rules
mod Processing
mod Queue
mod Runs
mod Candidates
mod Traced
mod Plan
mod Policies
