-- ===== src/DoubleWrite/Mirror.antt =====
-- The source and the destination play the same part in every operation but `BeginTx`: exchanging
-- them, and `src_first` with `dst_first`, changes nothing else.
use weishu.Base.{◌≡◌, map, arith}
use weishu.DoubleWrite.Defs.{
  Pattern, src_only, src_first, dst_first, dst_only, other, Entry, src_begin_failed,
  dst_begin_failed, src_write_failed, dst_write_failed, src_commit_failed, dst_commit_failed,
  src_rollback_failed, dst_rollback_failed, Driver, World,
}
use weishu.DoubleWrite.Pool.{DoubleWriteTx, exec}
use weishu.DoubleWrite.Tx.{tx_exec, commit, rollback}

abbrev pub mirror_pattern : Pattern → Pattern
mirror_pattern src_only = dst_only
mirror_pattern src_first = dst_first
mirror_pattern dst_first = src_first
mirror_pattern dst_only = src_only
mirror_pattern other = other

abbrev pub mirror_entry : {Err : Type 0} → Entry Err → Entry Err
mirror_entry (src_begin_failed e) = dst_begin_failed e
mirror_entry (dst_begin_failed e) = src_begin_failed e
mirror_entry (src_write_failed e) = dst_write_failed e
mirror_entry (dst_write_failed e) = src_write_failed e
mirror_entry src_commit_failed = dst_commit_failed
mirror_entry dst_commit_failed = src_commit_failed
mirror_entry src_rollback_failed = dst_rollback_failed
mirror_entry dst_rollback_failed = src_rollback_failed

abbrev pub mirror : {Db Err : Type 0} → World Db Err → World Db Err
mirror w = record { src = w.dst; dst = w.src; log = map mirror_entry w.log }

abbrev pub mirror_after : {Db Err X : Type 0} → X × World Db Err → X × World Db Err
mirror_after (x, w) = (x, mirror w)

abbrev pub mirror_tx : {Handle : Type 0} → DoubleWriteTx Handle → DoubleWriteTx Handle
mirror_tx t = record { src = t.dst; dst = t.src; pattern = mirror_pattern t.pattern }

module _ {Db Handle Query Res Rows Row Err : Type 0}
    (D : Driver Db Handle Query Res Rows Row Err) where
  -- A write under the mirrored pattern, on exchanged databases, gives the same result and the
  -- exchanged databases and log, for every pattern and however either write ends.
  pub exec-mirror :
      (p : Pattern) (q : Query) (w : World Db Err)
      → exec D (mirror_pattern p) q (mirror w) ≡ mirror_after (exec D p q w)
  unfolding exec
  exec-mirror src_only q w = ground arith
  exec-mirror p q w = ground arith

  tx_exec-mirror :
      (t : DoubleWriteTx Handle) (q : Query) (w : World Db Err)
      → tx_exec D (mirror_tx t) q (mirror w) ≡ mirror_after (tx_exec D t q w)
  unfolding tx_exec
  tx_exec-mirror t q w = ground arith

  commit-mirror :
      (t : DoubleWriteTx Handle) (w : World Db Err)
      → commit D (mirror_tx t) (mirror w) ≡ mirror_after (commit D t w)
  unfolding commit
  commit-mirror t w = ground arith

  rollback-mirror :
      (t : DoubleWriteTx Handle) (w : World Db Err)
      → rollback D (mirror_tx t) (mirror w) ≡ mirror_after (rollback D t w)
  unfolding rollback
  rollback-mirror t w = ground arith

  -- The same of a transaction, whichever of its handles are nil: its writes, its commit and its
  -- rollback on exchanged databases return the same, or panic alike, and leave them exchanged.
  pub tx-mirror :
      (t : DoubleWriteTx Handle) (q : Query) (w : World Db Err)
      → (tx_exec D (mirror_tx t) q (mirror w) ≡ mirror_after (tx_exec D t q w))
        × (commit D (mirror_tx t) (mirror w) ≡ mirror_after (commit D t w))
        × (rollback D (mirror_tx t) (mirror w) ≡ mirror_after (rollback D t w))
  tx-mirror t q w = (tx_exec-mirror t q w, commit-mirror t w, rollback-mirror t w)
