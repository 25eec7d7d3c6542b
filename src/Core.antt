-- ===== src/Core.antt =====
-- packages/core-types/src: the trust primitives that the other packages share.
pub mod AccessClass
pub mod ScalarText
pub mod StoredText
pub mod Whitespace
mod Tests
