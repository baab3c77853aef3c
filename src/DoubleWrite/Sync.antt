-- ===== src/DoubleWrite/Sync.antt =====
-- Under the two patterns that write to both databases they keep the same rows, as long as no write
-- to the second one is logged as failed.
use weishu.Base.{◌≤◌, ◌≡◌, sym, ◌∙◌, Bool, true, false, ◌⊎◌, List, [], ◌∷◌, length, arith}
use weishu.DoubleWrite.Defs.{Pattern, src_first, dst_first, other, Result, ok, err, Driver, World}
use weishu.DoubleWrite.Pool.{DoubleWritePool, update_pattern, exec}

abbrev pub writes_both : Pattern → Bool
writes_both src_first = true
writes_both dst_first = true
writes_both _ = false

-- What happens to a pool: a statement is executed, or its pattern is set.
pub data Op (Query : Type 0) : Type 0 where
  write : Query → Op Query
  update : Pattern → Op Query

-- The pattern that an operation sets writes to both databases, or is refused.
abbrev pub KeepsBoth : {Query : Type 0} → List (Op Query) → Type 0
KeepsBoth [] = Unit
KeepsBoth (write q ∷ ops) = KeepsBoth ops
KeepsBoth (update p ∷ ops) = ((writes_both p ≡ true) ⊎ (p ≡ other)) × KeepsBoth ops

-- The rows after a statement, by how it ended: one that succeeds has its effect, one that fails
-- has none.
abbrev pub rows_after :
    {Query Err Res Data : Type 0} → (Query → Data → Data) → Query → Data → Result Err Res → Data
rows_after apply q rows (ok r) = apply q rows
rows_after apply q rows (err e) = rows

module _ {Db Handle Query Res Rows Row Err : Type 0}
    (D : Driver Db Handle Query Res Rows Row Err) where
  step : Op Query → DoubleWritePool Db Err → DoubleWritePool Db Err
  step (write q) d = record d { world = (exec D d.pattern q d.world).1 }
  step (update p) d = (update_pattern p d).1

  unfoldable pub run : List (Op Query) → DoubleWritePool Db Err → DoubleWritePool Db Err
  unfolding step
  run [] d = d
  run (op ∷ ops) d = run ops (step op d)

module _ {Db Handle Query Res Rows Row Err Data : Type 0}
    (D : Driver Db Handle Query Res Rows Row Err) (rows : Db → Data) (apply : Query → Data → Data)
    (effect : (q : Query) (s : Db)
      → rows (D.exec q s).1 ≡ rows_after apply q (rows s) (D.exec q s).0) where
  step-log :
      (op : Op Query) (d : DoubleWritePool Db Err)
      → length d.world.log ≤ length (step D op d).world.log
  unfolding step exec update_pattern
  step-log (write q) d = ground arith
  step-log (update p) d = ground arith

  step-pattern :
      (op : Op Query) (ops : List (Op Query)) (d : DoubleWritePool Db Err)
      → KeepsBoth (op ∷ ops)
      → writes_both d.pattern ≡ true
      → (writes_both (step D op d).pattern ≡ true) × KeepsBoth ops
  unfolding step update_pattern
  step-pattern (write q) ops d k b = (b, k)
  step-pattern (update p) ops d k b = (ground arith, k.1)

  run-log :
      (ops : List (Op Query)) (d : DoubleWritePool Db Err)
      → length d.world.log ≤ length (run D ops d).world.log
  unfolding run
  run-log [] d = omega arith
  run-log (op ∷ ops) d = omega (arith, step-log op d, run-log ops (step D op d))

  exec-rows :
      (p : Pattern) (q : Query) (w : World Db Err)
      → writes_both p ≡ true
      → rows w.src ≡ rows w.dst
      → length (exec D p q w).1.log ≡ length w.log
      → rows (exec D p q w).1.src ≡ rows (exec D p q w).1.dst
  unfolding exec
  exec-rows src_first q w b h l = ground (arith, effect q w.src, effect q w.dst)
  exec-rows p q w b h l = ground (arith, effect q w.src, effect q w.dst)

  step-rows :
      (op : Op Query) (d : DoubleWritePool Db Err)
      → writes_both d.pattern ≡ true
      → rows d.world.src ≡ rows d.world.dst
      → length (step D op d).world.log ≡ length d.world.log
      → rows (step D op d).world.src ≡ rows (step D op d).world.dst
  unfolding step update_pattern
  step-rows (write q) d b h l = exec-rows d.pattern q d.world b h l
  step-rows (update p) d b h l = ground arith

  -- From equal rows, under patterns that write to both databases, any writes and changes of
  -- pattern leave equal rows, if they add nothing to the log. A statement that succeeds has the
  -- same effect on the same rows, and one that fails has none.
  pub run_in_sync :
      (ops : List (Op Query)) (d : DoubleWritePool Db Err)
      → KeepsBoth ops
      → writes_both d.pattern ≡ true
      → rows d.world.src ≡ rows d.world.dst
      → length (run D ops d).world.log ≡ length d.world.log
      → rows (run D ops d).world.src ≡ rows (run D ops d).world.dst
  unfolding run
  run_in_sync [] d k b h l = h
  run_in_sync (op ∷ ops) d k b h l =
      let same : length (step D op d).world.log ≡ length d.world.log =
        omega (arith, step-log op d, run-log ops (step D op d)) in
      let (b', k') = step-pattern op ops d k b in
      run_in_sync ops (step D op d) k' b' (step-rows op d b h same) (l ∙ sym same)
