-- ===== src/Lib.antt =====
-- Verification of the webook backend: a site for articles, written in Go, with its SMS, scheduling,
-- migration and counting services. All paths below are relative to the repository's root.
--
-- Parts and files
--   DoubleWrite: webook/pkg/gormx/connpool/double_write_pool.go. A connection pool that writes to two
--     databases by a pattern. Pool has the methods of DoubleWritePool (update_pattern, begin_tx, exec,
--     query, query_row), Tx those of DoubleWriteTx. database/sql is the parameter Driver of Defs: any
--     functions from a statement and a database to an answer and a database. A nil *sql.Tx is none, and
--     a call on it panics. What the source logs is a list in the World.
--   Migrator: webook/pkg/migrator. Table is a table by primary key with gorm's First, Save and Delete
--     as the source uses them; Fixer is OverrideFixer.Fix and Consumer.Consume, Validator the two loops
--     of validator.go, Scheduler the requests of scheduler/scheduler.go. A scheduler chooses the pattern
--     of a pool and the base of the validators; a validator reports rows to Kafka; a consumer gives
--     each report to a fixer. Migration puts validator and consumer together.
--   Sms: webook/internal/service/sms, webook/internal/repository/dao/async_sms.go. A Service is a
--     function from a request and a world to an error and a world; the decorators (Service, Failover,
--     Timeout, Async) are functions on services. Queue is the table of waiting messages.
--   Jobs: webook/internal/repository/dao/job.go, webook/internal/service/job.go,
--     webook/internal/job/mysql_job.go. Dao has the statements, Workers the machines that share the
--     table, one statement at a time, Scheduler the loop of Schedule with its limiter.
--   Articles: webook/internal/repository/dao/article.go is Dao, the authors' and the readers' table;
--     Repository is webook/internal/repository/article.go with its cache
--     (webook/internal/repository/cache/article.go), Service webook/internal/service/article.go. World
--     has what json and MySQL do; Authors is the call of the user repository, which is that of Users.
--   Interactive: webook/interactive. Dao has the tables of reads, likes and collections, Cache the
--     hashes of counts in Redis, Repository both together. Service is the service with GetByIds and
--     Get, its gRPC server, and the client of webook/internal/client with its adapter; Calls has their
--     calls that change something; Consumer is BatchConsume. History runs the calls of the repository,
--     Reply is what the client is told then, Uncounted what it is told of a like. The script incr_cnt.lua
--     is the empty file that it is in the repository.
--   Comments: webook/comment. Dao has the table, Repository the repository and the service, Server the
--     two gRPC servers; Replies is about a reply that is created, Tree about a first query.
--   Limits: webook/pkg/limiter, the Go call and its script together.
--   Follow: webook/follow. Dao has the table of relations, Repository the hashes of counts and both
--     together.
--   Users: webook/internal/web/user.go (Handlers), webook/internal/service/user.go and the
--     repository, the cache and the DAO below it. Texts is how Go and MySQL compare texts, Bcrypt what
--     bcrypt does.
--   Codes: webook/internal/service/code.go and the repository and cache below it. World has the two
--     scripts of Redis and the SMS service.
--   Ranking: webook/internal/service/ranking_service.go (Service), webook/internal/job/ranking.go
--     (Job), webook/internal/repository/ranking.go with its two caches (Cache). Queue is the priority
--     queue of ekit, by its operations and laws.
--   Sessions: webook/internal/web/jwt/jwt.go (Tokens), webook/internal/web/middleware/login_jwt.go and the
--     handlers of tokens in webook/internal/web/user.go (Requests). Jwt is the library for tokens.
--   Balancer: webook/pkg/grpcx/balancer/wrr/wrr.go. The weighted round robin of gRPC connections.
--   Kafka: webook/pkg/samarax/batch_hanler.go. Batches of messages and what is marked as consumed.
--   Base: lists over native numbers, rotations, Boolean tests, integers, calls that may panic.
--
-- Conventions
--   A table is the list of its rows by primary key. What the environment does is an input: a Bool for
--   a statement that fails, a turn of a loop for what the tables hold then, an answer for a remote
--   service, a number for the clock. A transaction that returns an error leaves the tables as they were.
--   Logging, sleeping and contexts have no state here; a context that is over is a fault or a turn.
--   Where callers share memory (Timeout of Sms, Workers of Jobs) every atomic operation or statement is
--   one step, and a schedule says who makes the next one.
--
-- Bounds and fuel
--   The loop of SendV1 has one round of fuel more than there are services, and without fuel it would
--   panic; Sms.Rotation shows that it does not. A call of the timeout failover has six operations.
--   The loops of the validator run over the turns that they are given, and whether they have
--   returned is part of the answer. The scan of topN has more fuel than there are articles, which
--   Ranking.Ends shows to be enough. The wrapping of uint64, int64 and int32 is written out where
--   the source computes with them; ids, clocks and the counts of rows are natural numbers.
--
-- Not modelled
--   What gorm, database/sql, Redis, Kafka, gin, gRPC and ekit do inside; the Lua scripts of
--   codes, whose files are empty; the other web handlers, wiring, metrics and generated code; FixV1 of the
--   fixer; a second unique index of a table that is migrated, with which an upsert may conflict; SyncStatus and GetTopArticles of the articles and their sorted set of likes.
pub mod Articles
pub mod Balancer
pub mod Base
pub mod Codes
pub mod Comments
pub mod DoubleWrite
pub mod Follow
pub mod Interactive
pub mod Jobs
pub mod Kafka
pub mod Limits
pub mod Migrator
pub mod Ranking
pub mod Sessions
pub mod Sms
pub mod Users
