-- ===== src/Mcp.antt =====
-- packages/mcp: the catalog of tools and their effects.
pub mod Effects
pub mod Catalog
pub mod Verify
