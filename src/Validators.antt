-- ===== src/Validators.antt =====
-- runtime/validators: the checks that a candidate event has to pass.
pub mod Issue
pub mod Transition
pub mod Schema
pub mod SourceBinding
pub mod Duplicate
pub mod Contradiction
pub mod Suite
