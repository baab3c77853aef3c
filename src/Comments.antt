-- ===== src/Comments.antt =====
-- Comments and their replies: webook/comment.
pub mod Dao
pub mod Repository
pub mod Server
pub mod Tree
pub mod Replies
mod Tests
