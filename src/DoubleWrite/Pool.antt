-- ===== src/DoubleWrite/Pool.antt =====
-- The methods of `DoubleWritePool`.
use weishu.Base.{Option, none, some, [], Outcome, returns, panics}
use weishu.DoubleWrite.Defs.{
  Pattern, src_only, src_first, dst_first, dst_only, other, Result, ok, err, PoolError, driver,
  unknown_pattern, src_begin_failed, dst_begin_failed, src_write_failed, dst_write_failed, Driver,
  World, on_src, on_dst, note_failure, answer,
}

-- The pool: its pattern, an atomic value, and what it writes to.
pub record DoubleWritePool (Db Err : Type 0) : Type 0 where
  pub pattern : Pattern
  pub world : World Db Err

-- `DoubleWriteTx`; `none` is a nil `*sql.Tx`.
pub record DoubleWriteTx (Handle : Type 0) : Type 0 where
  pub src : Option Handle
  pub dst : Option Handle
  pub pattern : Pattern

-- `NewDoubleWritePool`
unfoldable pub new_double_write_pool : {Db Err : Type 0} → Db → Db → DoubleWritePool Db Err
new_double_write_pool src dst = record {
  pattern = src_only;
  world = record { src = src; dst = dst; log = [] };
}

-- A text that is none of the four constants is refused and changes nothing.
unfoldable pub update_pattern :
    {Db Err : Type 0}
    → Pattern
    → DoubleWritePool Db Err
    → Option (PoolError Err) × DoubleWritePool Db Err
update_pattern src_only d = (none, record d { pattern = src_only })
update_pattern src_first d = (none, record d { pattern = src_first })
update_pattern dst_only d = (none, record d { pattern = dst_only })
update_pattern dst_first d = (none, record d { pattern = dst_first })
update_pattern other d = (some unknown_pattern, d)

-- `PrepareContext` of the pool and of its transaction.
unfoldable pub prepare : {Stmt : Type 0} → Outcome Stmt
prepare = panics

abbrev pub handle_of : {Err Handle : Type 0} → Result Err Handle → Option Handle
handle_of (ok h) = some h
handle_of (err e) = none

abbrev pub error_of : {Err A : Type 0} → Result Err A → Option (PoolError Err)
error_of (ok a) = none
error_of (err e) = some (driver e)

module _ {Db Handle Query Res Rows Row Err : Type 0}
    (D : Driver Db Handle Query Res Rows Row Err) where
  -- What `BeginTx` returns: a transaction, or nil, and an error, or nil.
  abbrev pub Begun : Type 0
  Begun = Option (DoubleWriteTx Handle) × Option (PoolError Err) × World Db Err

  -- The second database of `src_first`: its error is logged and also returned.
  begin_src_first : Result Err Handle × World Db Err → Begun
  begin_src_first (err e, w) = (none, some (driver e), w)
  begin_src_first (ok src, w) =
      let (r, w') = on_dst D.begin w in
      (
        some (record { src = some src; dst = handle_of r; pattern = src_first }),
        error_of r,
        note_failure dst_begin_failed (r, w'),
      )

  -- The second database of `dst_first`: its error is logged, and nil is returned.
  begin_dst_first : Result Err Handle × World Db Err → Begun
  begin_dst_first (err e, w) = (none, some (driver e), w)
  begin_dst_first (ok dst, w) =
      let (r, w') = on_src D.begin w in
      (
        some (record { src = handle_of r; dst = some dst; pattern = dst_first }),
        none,
        note_failure src_begin_failed (r, w'),
      )

  unfoldable pub begin_tx : Pattern → World Db Err → Begun
  unfolding begin_src_first begin_dst_first
  begin_tx src_only w =
      let (r, w') = on_src D.begin w in
      (some (record { src = handle_of r; dst = none; pattern = src_only }), error_of r, w')
  begin_tx src_first w = begin_src_first (on_src D.begin w)
  begin_tx dst_only w =
      let (r, w') = on_dst D.begin w in
      (some (record { src = none; dst = handle_of r; pattern = dst_only }), error_of r, w')
  begin_tx dst_first w = begin_dst_first (on_dst D.begin w)
  begin_tx other w = (none, some unknown_pattern, w)

  -- After a write to the first database: the same statement on the second, if there was no error.
  also_dst : Query → Result Err Res × World Db Err → Result (PoolError Err) Res × World Db Err
  also_dst q (ok r, w) = (ok r, note_failure dst_write_failed (on_dst (D.exec q) w))
  also_dst q (err e, w) = (err (driver e), w)

  also_src : Query → Result Err Res × World Db Err → Result (PoolError Err) Res × World Db Err
  also_src q (ok r, w) = (ok r, note_failure src_write_failed (on_src (D.exec q) w))
  also_src q (err e, w) = (err (driver e), w)

  -- `ExecContext`
  unfoldable pub exec : Pattern → Query → World Db Err → Result (PoolError Err) Res × World Db Err
  unfolding also_src also_dst
  exec src_only q w = answer (on_src (D.exec q) w)
  exec src_first q w = also_dst q (on_src (D.exec q) w)
  exec dst_only q w = answer (on_dst (D.exec q) w)
  exec dst_first q w = also_src q (on_dst (D.exec q) w)
  exec other q w = (err unknown_pattern, w)

  -- `QueryContext`
  unfoldable pub query : Pattern → Query → World Db Err → Result (PoolError Err) Rows × World Db Err
  query src_only q w = answer (on_src (D.query q) w)
  query src_first q w = answer (on_src (D.query q) w)
  query dst_only q w = answer (on_dst (D.query q) w)
  query dst_first q w = answer (on_dst (D.query q) w)
  query other q w = (err unknown_pattern, w)

  abbrev row : Row × World Db Err → Outcome Row × World Db Err
  row (r, w) = (returns r, w)

  -- `QueryRowContext`
  unfoldable pub query_row : Pattern → Query → World Db Err → Outcome Row × World Db Err
  query_row src_only q w = row (on_src (D.query_row q) w)
  query_row src_first q w = row (on_src (D.query_row q) w)
  query_row dst_only q w = row (on_dst (D.query_row q) w)
  query_row dst_first q w = row (on_dst (D.query_row q) w)
  query_row other q w = (panics, w)
