-- ===== src/Contracts.antt =====
-- The contracts package (packages/contracts/src).
pub mod Strings
pub mod Task
pub mod Evaluate
pub mod Artifacts
pub mod Handoff
pub mod Verdict
pub mod Tdd
