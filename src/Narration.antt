-- ===== src/Narration.antt =====
-- Narration, which reads chapters aloud.
pub mod Jobs
pub mod Worker
