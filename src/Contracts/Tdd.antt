-- ===== src/Contracts/Tdd.antt =====
-- Attestations of test-driven work (packages/contracts/src/tdd-attestation.mjs).
pub mod Paths
pub mod Observe
pub mod Machine
pub mod Laws
pub mod Green
pub mod Bounds
pub mod History
pub mod Changes
pub mod Valid
pub mod Attestation
pub mod Named
