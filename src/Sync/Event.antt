-- ===== src/Sync/Event.antt =====
-- Events of packages/sync/src/sync-protocol.mjs: their data, `createSyncEvent` and
-- `validateSyncEvent`.
pub mod Data
pub mod Create
pub mod Laws
pub mod RoundTrip
pub mod Kept
