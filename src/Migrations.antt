-- ===== src/Migrations.antt =====
-- packages/migrations: its data, registry, journals, runs and rollbacks.
pub mod Data
pub mod Registry
pub mod Journal
pub mod Receipt
pub mod Machine
pub mod Run
pub mod Repair
pub mod Rollback
