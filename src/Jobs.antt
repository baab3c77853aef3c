-- ===== src/Jobs.antt =====
-- The jobs that several machines schedule by a table of MySQL: webook/internal/repository/dao/job.go,
-- webook/internal/service/job.go and webook/internal/job/mysql_job.go.
pub mod Dao
pub mod Workers
pub mod Table
pub mod Consistency
pub mod Exclusion
pub mod Abandoned
pub mod Scheduler
pub mod Tests
