-- ===== src/Users.antt =====
-- Accounts: webook/internal/service/user.go and what stands below it.
pub mod Dao
pub mod Repository
pub mod Service
pub mod Rows
pub mod Accounts
pub mod Login
pub mod FirstVisit
pub mod Handlers
pub mod Handled
mod Tests
