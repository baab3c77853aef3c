-- ===== src/DoubleWrite/Primary.antt =====
-- The first database decides: what a pattern adds by writing to the second one.
use weishu.Base.{◌≡◌, List, arith}
use weishu.DoubleWrite.Defs.{
  src_only, src_first, dst_first, dst_only, err, driver, Entry, Driver, World,
}
use weishu.DoubleWrite.Pool.{exec}

module _ {Db Handle Query Res Rows Row Err : Type 0}
    (D : Driver Db Handle Query Res Rows Row Err) where
  -- A write under `src_first` returns what it returns under `src_only` and leaves the same source;
  -- so does one under `dst_first` against `dst_only`, with the two databases exchanged.
  pub exec_primary :
      (q : Query) (w : World Db Err)
      → ((exec D src_first q w).0 ≡ (exec D src_only q w).0)
        × ((exec D src_first q w).1.src ≡ (exec D src_only q w).1.src)
        × ((exec D dst_first q w).0 ≡ (exec D dst_only q w).0)
        × ((exec D dst_first q w).1.dst ≡ (exec D dst_only q w).1.dst)
  unfolding exec
  exec_primary q w = (ground arith, ground arith, ground arith, ground arith)

  -- A statement that the first database refuses is not tried on the second one, under either
  -- pattern that writes to both: the second database and the log stay as they are.
  pub exec_refused :
      (q : Query) (x y x' : Db) (log : List (Entry Err)) (e : Err)
      → D.exec q x ≡ (err e, x')
      → (exec D src_first q (record { src = x; dst = y; log = log })
          ≡ (err (driver e), record { src = x'; dst = y; log = log }))
        × (exec D dst_first q (record { src = y; dst = x; log = log })
            ≡ (err (driver e), record { src = y; dst = x'; log = log }))
  unfolding exec
  exec_refused q x y x' log e h = (ground arith, ground arith)
