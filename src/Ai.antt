-- ===== src/Ai.antt =====
-- Which backend runs AI work, for whom: ai_execution/domain/backend.py and
-- ai_execution/adapters/outbound/policy.py.
pub mod Backend
pub mod Settings
pub mod Grants
pub mod Resolve
pub mod Admin
mod Tests
pub mod Slots
