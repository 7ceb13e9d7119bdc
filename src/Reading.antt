-- ===== src/Reading.antt =====
-- Reading: progress, the ceiling that guards against spoilers, overlays and contributions.
pub mod Tables
pub mod Progress
pub mod Openings
pub mod Ceiling
pub mod Spoilers
pub mod Overlays
pub mod Anchors
pub mod Edits
pub mod Sequences
pub mod Ingestion
pub mod Anchored
pub mod Contributions
pub mod Decided
pub mod Accepting
mod EditTests
