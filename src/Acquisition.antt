-- ===== src/Acquisition.antt =====
-- Books that users import: the parts of the acquisition module that turn a parsed document into
-- chapters.
pub mod Document
pub mod Boundaries
pub mod Titles
pub mod Passages
pub mod Segments
pub mod Refine
pub mod Integers
pub mod Numbers
mod Tests
