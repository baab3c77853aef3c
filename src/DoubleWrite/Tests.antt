-- ===== src/DoubleWrite/Tests.antt =====
-- Runs of the pool over a toy driver, and the theorems at concrete inputs.
use weishu.Base.{ℕ, ◌≡◌, refl, none, some, List, [], ◌∷◌, inl, ◌==◌, if◌then◌else◌, is_empty, arith}
use weishu.DoubleWrite.Defs.{
  src_only, src_first, dst_first, dst_only, Result, ok, err, Driver, World,
}
use weishu.DoubleWrite.Pool.{DoubleWriteTx, DoubleWritePool, exec, update_pattern}
use weishu.DoubleWrite.Tx.{tx_exec, commit, rollback}
use weishu.DoubleWrite.Mirror.{
  mirror_pattern, mirror, mirror_after, mirror_tx, exec-mirror, tx-mirror,
}
use weishu.DoubleWrite.Sync.{write, update, run, rows_after, run_in_sync}
use weishu.DoubleWrite.Primary.{exec_primary}

-- A database is the list of the values inserted; the statement 0 fails, and so does every
-- transaction on a database without rows.
abbrev insert_row : ℕ → List ℕ → Result ℕ ℕ × List ℕ
insert_row q s = if q == 0 then (err 1062, s) else (ok 1, q ∷ s)

abbrev toy : Driver (List ℕ) ℕ ℕ ℕ (List ℕ) (List ℕ) ℕ
toy = record {
  exec = insert_row;
  query = λ q s. (ok s, s);
  query_row = λ q s. (s, s);
  begin = λ s. if is_empty s then (err 7, s) else (ok 1, s);
  tx_exec = λ h q s. insert_row q s;
  tx_query = λ h q s. (ok s, s);
  tx_query_row = λ h q s. (s, s);
  commit = λ h s. (none, s);
  rollback = λ h s. (none, s);
}

abbrev start : World (List ℕ) ℕ
start = record { src = 5 ∷ []; dst = 5 ∷ []; log = [] }

abbrev new_table : World (List ℕ) ℕ
new_table = record { src = 5 ∷ []; dst = []; log = [] }

exec_both :
    exec toy src_first 8 start ≡ (ok 1, record { src = 8 ∷ 5 ∷ []; dst = 8 ∷ 5 ∷ []; log = [] })
unfolding exec
exec_both = refl

exec-mirror_example :
    exec toy (mirror_pattern src_first) 8 (mirror new_table)
    ≡ mirror_after (exec toy src_first 8 new_table)
exec-mirror_example = exec-mirror toy src_first 8 new_table

abbrev half : DoubleWriteTx ℕ
half = record { src = none; dst = some 1; pattern = dst_first }

tx-mirror_example :
    (tx_exec toy (mirror_tx half) 3 (mirror start) ≡ mirror_after (tx_exec toy half 3 start))
    × (commit toy (mirror_tx half) (mirror start) ≡ mirror_after (commit toy half start))
    × (rollback toy (mirror_tx half) (mirror start) ≡ mirror_after (rollback toy half start))
tx-mirror_example = tx-mirror toy half 3 start

exec_primary_example :
    ((exec toy src_first 8 new_table).0 ≡ (exec toy src_only 8 new_table).0)
    × ((exec toy src_first 8 new_table).1.src ≡ (exec toy src_only 8 new_table).1.src)
    × ((exec toy dst_first 8 new_table).0 ≡ (exec toy dst_only 8 new_table).0)
    × ((exec toy dst_first 8 new_table).1.dst ≡ (exec toy dst_only 8 new_table).1.dst)
exec_primary_example = exec_primary toy 8 new_table

toy-effect :
    (q : ℕ) (s : List ℕ) → (toy.exec q s).1 ≡ rows_after (λ r t. r ∷ t) q s (toy.exec q s).0
toy-effect q s = ground arith

abbrev pool : DoubleWritePool (List ℕ) ℕ
pool = record { pattern = src_first; world = start }

run_in_sync_example :
    (run toy (write 8 ∷ update dst_first ∷ write 0 ∷ write 9 ∷ []) pool).world.src
    ≡ (run toy (write 8 ∷ update dst_first ∷ write 0 ∷ write 9 ∷ []) pool).world.dst
unfolding run exec update_pattern
run_in_sync_example =
    run_in_sync toy (λ s. s) (λ q s. q ∷ s) toy-effect
      (write 8 ∷ update dst_first ∷ write 0 ∷ write 9 ∷ []) pool (inl refl, tt) refl refl refl
