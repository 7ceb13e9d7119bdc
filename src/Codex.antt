-- ===== src/Codex.antt =====
-- The codex (novelwiki/modules/codex): how chapters are cut into chunks, and the search over them.
pub mod Chunks
pub mod Bm25
pub mod Fuse
