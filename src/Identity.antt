-- ===== src/Identity.antt =====
-- Accounts, spending rights, monthly quotas and administration (novelwiki/modules/identity).
pub mod Principal
pub mod Quota
pub mod Admin
pub mod RateLimits
