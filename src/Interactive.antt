-- ===== src/Interactive.antt =====
-- Reads, likes and collections: webook/interactive/repository/dao/interactive.go.
pub mod Dao
pub mod Counts
pub mod Cache
pub mod Repository
pub mod History
pub mod Service
pub mod Reply
pub mod Uncounted
pub mod Consumer
mod ReplyTests
pub mod Calls
mod Tests
