-- ===== src/Kafka.antt =====
-- Batches of Kafka messages, webook/pkg/samarax/batch_hanler.go.
pub mod Batch
pub mod Received
mod Tests
