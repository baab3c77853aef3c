-- ===== src/Sessions.antt =====
-- Sessions: webook/internal/web/jwt/jwt.go and webook/internal/web/middleware/login_jwt.go, with what
-- webook/internal/web/user.go makes of them.
pub mod Tokens
pub mod Requests
pub mod Logout
pub mod Admission
mod Tests
