-- ===== src/Codes.antt =====
-- Verification codes: webook/internal/service/code.go and what is below it.
pub mod Service
pub mod Replies
mod Tests
