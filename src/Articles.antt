-- ===== src/Articles.antt =====
-- Articles: the authors' table and the readers' one, webook/internal/repository/dao/article.go.
pub mod Dao
pub mod Publishing
pub mod Authors
pub mod Repository
pub mod Service
pub mod Reading
mod ReadingTests
mod Tests
