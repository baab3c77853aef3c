-- ===== src/DoubleWrite/Begin.antt =====
-- How `BeginTx` treats a second database that does not answer, and what a transaction does whose
-- second handle is nil for that reason.
use weishu.Base.{◌≡◌, ◌≢◌, none, some, List, ◌∷◌, panics, arith}
use weishu.DoubleWrite.Defs.{
  src_first, dst_first, ok, err, driver, Entry, src_begin_failed, dst_begin_failed, Driver, World,
}
use weishu.DoubleWrite.Pool.{DoubleWriteTx, begin_tx}
use weishu.DoubleWrite.Tx.{tx_exec, commit, rollback}

module _ {Db Handle Query Res Rows Row Err : Type 0}
    (D : Driver Db Handle Query Res Rows Row Err) where
  -- The first database of a pattern that writes to both begins a transaction and the second one
  -- refuses. The transaction is begun all the same, with nil for the second handle, and the refusal
  -- is logged. Under `dst_first` no error is returned; under `src_first` the refusal is returned too.
  pub begin_tx_second_refused :
      (x x' y y' : Db) (log : List (Entry Err)) (h : Handle) (e : Err)
      → D.begin x ≡ (ok h, x')
      → D.begin y ≡ (err e, y')
      → (begin_tx D dst_first (record { src = y; dst = x; log = log }) ≡ (
        some (record { src = none; dst = some h; pattern = dst_first }),
        none,
        record { src = y'; dst = x'; log = src_begin_failed e ∷ log },
      ))
        × (begin_tx D src_first (record { src = x; dst = y; log = log }) ≡ (
          some (record { src = some h; dst = none; pattern = src_first }),
          some (driver e),
          record { src = x'; dst = y'; log = dst_begin_failed e ∷ log },
        ))
  unfolding begin_tx
  begin_tx_second_refused x x' y y' log h e p q = (ground arith, ground arith)

  -- A transaction of `dst_first` without a source handle commits and rolls back as the destination
  -- does and leaves the source alone, but a write that the destination accepts panics.
  pub tx_second_nil :
      (h : Handle) (q : Query) (w : World Db Err) (r : Res) (d : Db)
      → D.tx_exec h q w.dst ≡ (ok r, d)
      → let t : DoubleWriteTx Handle = record { src = none; dst = some h; pattern = dst_first } in
        (tx_exec D t q w ≡ (panics, record w { dst = d }))
        × ((commit D t w).0 ≢ panics)
        × ((commit D t w).1 ≡ record w { dst = (D.commit h w.dst).1 })
        × ((rollback D t w).0 ≢ panics)
        × ((rollback D t w).1 ≡ record w { dst = (D.rollback h w.dst).1 })
  unfolding tx_exec commit rollback
  tx_second_nil h q w r d e = (ground arith, ground arith, ground arith, ground arith, ground arith)
