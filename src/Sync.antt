-- ===== src/Sync.antt =====
-- The sync package (packages/sync/src).
pub mod Canonical
pub mod Event
pub mod State
pub mod Apply
pub mod Resolve
pub mod Lease
pub mod Private
pub mod Outbox
pub mod Backend
