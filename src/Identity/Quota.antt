-- ===== src/Identity/Quota.antt =====
-- Monthly quotas: the `quota_usage` table, its repository and the service over it.
pub mod Kinds
pub mod Table
pub mod Cells
pub mod Service
pub mod Limits
pub mod Requests
mod Tests
