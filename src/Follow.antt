-- ===== src/Follow.antt =====
-- Who follows whom, and the cached counts: webook/follow.
pub mod Dao
pub mod Repository
pub mod Calls
mod Tests
