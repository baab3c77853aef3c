-- ===== src/Sms.antt =====
-- webook/internal/service/sms: sending text messages through a provider, and the decorators that
-- wrap one provider or several in another service of the same interface.
pub mod Service
pub mod Failover
pub mod Rotation
pub mod Timeout
pub mod Switching
pub mod Queue
pub mod Async
pub mod Rows
pub mod Retries
mod Tests
