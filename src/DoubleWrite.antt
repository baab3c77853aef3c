-- ===== src/DoubleWrite.antt =====
-- webook/pkg/gormx/connpool/double_write_pool.go: one connection pool over a source and a
-- destination database. This file has the data; `Pool` has the methods of `DoubleWritePool` and
-- `Tx` those of `DoubleWriteTx`, the transaction that the pool begins.
-- The two databases are reached through `database/sql`, whose behaviour is the parameter `Driver`.
pub mod Defs
pub mod Pool
pub mod Tx
pub mod Mirror
pub mod Primary
pub mod Sync
pub mod Begin
mod Tests
