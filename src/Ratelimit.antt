-- ===== src/Ratelimit.antt =====
-- internal/ratelimit: token buckets. `Limiter` has the operations, `Buckets` their theorems.
pub mod Float
pub mod Limiter
pub mod Buckets
mod Tests
