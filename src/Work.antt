-- ===== src/Work.antt =====
-- Durable background jobs (novelwiki/modules/work).
pub mod Job
pub mod Store
pub mod Settlement
pub mod Transitions
pub mod Waiting
pub mod Leases
pub mod Claims
pub mod Fallback
pub mod Create
pub mod Follows
pub mod Ids
pub mod Stable
pub mod Preservation
pub mod Consistency
pub mod Operations
pub mod History
pub mod Refunds
pub mod Service
pub mod Worker
pub mod Once
pub mod Tests
