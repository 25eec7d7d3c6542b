-- ===== src/Content.antt =====
-- packages/content/src: captured source text.
pub mod Chunking
pub mod Capture
mod Tests
