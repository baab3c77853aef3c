-- ===== src/DoubleWrite/Tx.antt =====
-- The methods of `DoubleWriteTx`. A method called on a nil `*sql.Tx` panics.
use weishu.Base.{Option, none, some, Outcome, returns, panics}
use weishu.DoubleWrite.Defs.{
  Pattern, src_only, src_first, dst_first, dst_only, other, Result, ok, err, PoolError, driver,
  unknown_pattern, Entry, src_write_failed, dst_write_failed, src_commit_failed, dst_commit_failed,
  src_rollback_failed, dst_rollback_failed, Driver, World, on_src, on_dst, note_failure, note_error,
}
use weishu.DoubleWrite.Pool.{DoubleWriteTx}

module _ {Db Handle Query Res Rows Row Err : Type 0}
    (D : Driver Db Handle Query Res Rows Row Err) where
  -- A call through the transaction's `src`, or `dst`.
  abbrev pub through_src :
      {X : Type 0}
      → (Handle → Db → X × Db)
      → Option Handle
      → World Db Err
      → Outcome X × World Db Err
  through_src call none w = (panics, w)
  through_src call (some h) w = let (x, w') = on_src (call h) w in (returns x, w')

  abbrev pub through_dst :
      {X : Type 0}
      → (Handle → Db → X × Db)
      → Option Handle
      → World Db Err
      → Outcome X × World Db Err
  through_dst call none w = (panics, w)
  through_dst call (some h) w = let (x, w') = on_dst (call h) w in (returns x, w')

  abbrev pub TxResult : Type 0 → Type 0
  TxResult A = Outcome (Result (PoolError Err) A) × World Db Err

  abbrev pub tx_answer : {A : Type 0} → Outcome (Result Err A) × World Db Err → TxResult A
  tx_answer (panics, w) = (panics, w)
  tx_answer (returns (ok a), w) = (returns (ok a), w)
  tx_answer (returns (err e), w) = (returns (err (driver e)), w)

  -- The result of the first write stands, whatever the logged second one gives, unless that panics.
  abbrev keep :
      {A : Type 0} → A → (Err → Entry Err) → Outcome (Result Err A) × World Db Err → TxResult A
  keep a entry (panics, w) = (panics, w)
  keep a entry (returns r, w) = (returns (ok a), note_failure entry (r, w))

  tx_also_dst :
      DoubleWriteTx Handle → Query → Outcome (Result Err Res) × World Db Err → TxResult Res
  tx_also_dst t q (panics, w) = (panics, w)
  tx_also_dst t q (returns (err e), w) = (returns (err (driver e)), w)
  tx_also_dst t q (returns (ok r), w) =
      keep r dst_write_failed (through_dst (λ h. D.tx_exec h q) t.dst w)

  tx_also_src :
      DoubleWriteTx Handle → Query → Outcome (Result Err Res) × World Db Err → TxResult Res
  tx_also_src t q (panics, w) = (panics, w)
  tx_also_src t q (returns (err e), w) = (returns (err (driver e)), w)
  tx_also_src t q (returns (ok r), w) =
      keep r src_write_failed (through_src (λ h. D.tx_exec h q) t.src w)

  exec_by : Pattern → DoubleWriteTx Handle → Query → World Db Err → TxResult Res
  unfolding tx_also_src tx_also_dst
  exec_by src_only t q w = tx_answer (through_src (λ h. D.tx_exec h q) t.src w)
  exec_by src_first t q w = tx_also_dst t q (through_src (λ h. D.tx_exec h q) t.src w)
  exec_by dst_only t q w = tx_answer (through_dst (λ h. D.tx_exec h q) t.dst w)
  exec_by dst_first t q w = tx_also_src t q (through_dst (λ h. D.tx_exec h q) t.dst w)
  exec_by other t q w = (returns (err unknown_pattern), w)

  -- `ExecContext`
  unfoldable pub tx_exec : DoubleWriteTx Handle → Query → World Db Err → TxResult Res
  unfolding exec_by
  tx_exec t = exec_by t.pattern t

  query_by : Pattern → DoubleWriteTx Handle → Query → World Db Err → TxResult Rows
  query_by src_only t q w = tx_answer (through_src (λ h. D.tx_query h q) t.src w)
  query_by src_first t q w = tx_answer (through_src (λ h. D.tx_query h q) t.src w)
  query_by dst_only t q w = tx_answer (through_dst (λ h. D.tx_query h q) t.dst w)
  query_by dst_first t q w = tx_answer (through_dst (λ h. D.tx_query h q) t.dst w)
  query_by other t q w = (returns (err unknown_pattern), w)

  -- `QueryContext`
  unfoldable pub tx_query : DoubleWriteTx Handle → Query → World Db Err → TxResult Rows
  unfolding query_by
  tx_query t = query_by t.pattern t

  query_row_by : Pattern → DoubleWriteTx Handle → Query → World Db Err → Outcome Row × World Db Err
  query_row_by src_only t q w = through_src (λ h. D.tx_query_row h q) t.src w
  query_row_by src_first t q w = through_src (λ h. D.tx_query_row h q) t.src w
  query_row_by dst_only t q w = through_dst (λ h. D.tx_query_row h q) t.dst w
  query_row_by dst_first t q w = through_dst (λ h. D.tx_query_row h q) t.dst w
  query_row_by other t q w = (panics, w)

  -- `QueryRowContext`
  unfoldable pub tx_query_row :
      DoubleWriteTx Handle → Query → World Db Err → Outcome Row × World Db Err
  unfolding query_row_by
  tx_query_row t = query_row_by t.pattern t

  abbrev pub Ended : Type 0
  Ended = Outcome (Option (PoolError Err)) × World Db Err

  abbrev ended : Outcome (Option Err) × World Db Err → Ended
  ended (panics, w) = (panics, w)
  ended (returns none, w) = (returns none, w)
  ended (returns (some e), w) = (returns (some (driver e)), w)

  -- The end of the second transaction: none if it is nil, and an error is only logged.
  second_src :
      (Handle → Db → Option Err × Db) → Entry Err → Option Handle → World Db Err → World Db Err
  second_src finish entry none w = w
  second_src finish entry (some h) w = note_error entry (on_src (finish h) w)

  second_dst :
      (Handle → Db → Option Err × Db) → Entry Err → Option Handle → World Db Err → World Db Err
  second_dst finish entry none w = w
  second_dst finish entry (some h) w = note_error entry (on_dst (finish h) w)

  then_second : Outcome (Option Err) × World Db Err → (World Db Err → World Db Err) → Ended
  then_second (panics, w) second = (panics, w)
  then_second (returns (some e), w) second = (returns (some (driver e)), w)
  then_second (returns none, w) second = (returns none, second w)

  commit_by : Pattern → DoubleWriteTx Handle → World Db Err → Ended
  unfolding second_src second_dst then_second
  commit_by src_only t w = ended (through_src D.commit t.src w)
  commit_by src_first t w =
      then_second (through_src D.commit t.src w) (second_dst D.commit dst_commit_failed t.dst)
  commit_by dst_first t w =
      then_second (through_dst D.commit t.dst w) (second_src D.commit src_commit_failed t.src)
  commit_by dst_only t w = ended (through_dst D.commit t.dst w)
  commit_by other t w = (returns (some unknown_pattern), w)

  -- `Commit`
  unfoldable pub commit : DoubleWriteTx Handle → World Db Err → Ended
  unfolding commit_by
  commit t = commit_by t.pattern t

  rollback_by : Pattern → DoubleWriteTx Handle → World Db Err → Ended
  unfolding second_src second_dst then_second
  rollback_by src_only t w = ended (through_src D.rollback t.src w)
  rollback_by src_first t w =
      then_second (through_src D.rollback t.src w) (second_dst D.rollback dst_rollback_failed t.dst)
  rollback_by dst_first t w =
      then_second (through_dst D.rollback t.dst w) (second_src D.rollback src_rollback_failed t.src)
  rollback_by dst_only t w = ended (through_dst D.rollback t.dst w)
  rollback_by other t w = (returns (some unknown_pattern), w)

  -- `Rollback`
  unfoldable pub rollback : DoubleWriteTx Handle → World Db Err → Ended
  unfolding rollback_by
  rollback t = rollback_by t.pattern t
