-- ===== src/Http.antt =====
-- The HTTP layer of the SDK.
pub mod ConnectionPool
