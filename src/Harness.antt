-- ===== src/Harness.antt =====
-- The harness package (packages/harness/src).
pub mod Profile
pub mod Lease
