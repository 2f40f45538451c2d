-- ===== src/Observer.antt =====
-- The observer package (packages/observer/src).
pub mod Tokens
pub mod Authz
