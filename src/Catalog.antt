-- ===== src/Catalog.antt =====
-- The catalog of novels: catalog/domain, catalog/application and the statements of
-- catalog/adapters/outbound/postgres.py.
pub mod Tags
pub mod Novels
pub mod Suggestions
pub mod Access
pub mod Calls
