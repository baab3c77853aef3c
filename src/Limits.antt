-- ===== src/Limits.antt =====
-- The rate limiter of a sliding window: webook/pkg/limiter.
pub mod Window
pub mod Bound
mod Tests
