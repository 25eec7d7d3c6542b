-- ===== src/Tenancy.antt =====
-- packages/tenancy/src: the scope of a request.
pub mod ScopedKeys
mod Tests
