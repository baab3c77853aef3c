-- ===== src/DoubleWrite/Defs.antt =====
-- The patterns, the two databases and the log of double_write_pool.go, and the driver below them.
use weishu.Base.{Option, none, some, List, ◌∷◌}

-- The four constants of the file; any other text is `other`.
pub data Pattern : Type 0 where
  src_only src_first dst_first dst_only other : Pattern

-- A value, or the error that the driver returned in its place.
pub data Result (Err A : Type 0) : Type 0 where
  ok : A → Result Err A
  err : Err → Result Err A

-- An error that reaches the caller: the driver's, or `errUnknownPattern`.
pub data PoolError (Err : Type 0) : Type 0 where
  driver : Err → PoolError Err
  unknown_pattern : PoolError Err

-- What the code writes to its logger by `d.l.Error`.
pub data Entry (Err : Type 0) : Type 0 where
  src_begin_failed dst_begin_failed : Err → Entry Err
  src_write_failed dst_write_failed : Err → Entry Err
  src_commit_failed dst_commit_failed : Entry Err
  src_rollback_failed dst_rollback_failed : Entry Err

-- `gorm.ConnPool`, `gorm.TxBeginner` and `*sql.Tx`. A statement carries its arguments; a handle is
-- a transaction that is not nil; every call may change the database it is made on.
pub record Driver (Db Handle Query Res Rows Row Err : Type 0) : Type 0 where
  pub exec : Query → Db → Result Err Res × Db
  pub query : Query → Db → Result Err Rows × Db
  pub query_row : Query → Db → Row × Db
  pub begin : Db → Result Err Handle × Db
  pub tx_exec : Handle → Query → Db → Result Err Res × Db
  pub tx_query : Handle → Query → Db → Result Err Rows × Db
  pub tx_query_row : Handle → Query → Db → Row × Db
  pub commit : Handle → Db → Option Err × Db
  pub rollback : Handle → Db → Option Err × Db

-- The databases behind `src` and `dst`, and the log, its newest entry first.
pub record World (Db Err : Type 0) : Type 0 where
  pub src : Db
  pub dst : Db
  pub log : List (Entry Err)

module _ {Db Err : Type 0} where
  abbrev pub on_src : {X : Type 0} → (Db → X × Db) → World Db Err → X × World Db Err
  on_src call w = let (x, s) = call w.src in (x, record w { src = s })

  abbrev pub on_dst : {X : Type 0} → (Db → X × Db) → World Db Err → X × World Db Err
  on_dst call w = let (x, s) = call w.dst in (x, record w { dst = s })

  abbrev pub note : Entry Err → World Db Err → World Db Err
  note e w = record w { log = e ∷ w.log }

-- A call whose error is only logged, under the name that `entry` gives it.
abbrev pub note_failure :
    {Db Err A : Type 0} → (Err → Entry Err) → Result Err A × World Db Err → World Db Err
note_failure entry (ok a, w) = w
note_failure entry (err e, w) = note (entry e) w

abbrev pub note_error : {Db Err : Type 0} → Entry Err → Option Err × World Db Err → World Db Err
note_error entry (none, w) = w
note_error entry (some e, w) = note entry w

-- The driver's answer, as the caller of the pool sees it.
abbrev pub answer :
    {Db Err A : Type 0} → Result Err A × World Db Err → Result (PoolError Err) A × World Db Err
answer (ok a, w) = (ok a, w)
answer (err e, w) = (err (driver e), w)
