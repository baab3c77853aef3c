-- ===== src/Ranking.antt =====
-- The hot list: webook/internal/service/ranking_service.go, its job and its caches.
pub mod Queue
pub mod Service
pub mod Best
pub mod Pages
pub mod Ends
pub mod Cache
pub mod Job
mod Tests
