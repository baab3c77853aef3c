-- ===== src/Migrator.antt =====
-- webook/pkg/migrator: moving a table from a source database to a destination one. A validator
-- compares the two and reports inconsistent rows to Kafka, a consumer of these reports repairs the
-- rows, and a scheduler chooses the pattern of the double-writing pool and starts the validators.
pub mod Table
pub mod Events
pub mod Fixer
pub mod Validator
pub mod Lookup
pub mod Mentions
pub mod Rounds
pub mod Reports
pub mod Batches
pub mod Repair
pub mod Migration
pub mod Scheduler
pub mod Runs
pub mod Cancelling
pub mod SchedulerTests
mod Tests
