-- ===== src/Migrator/Cancelling.antt =====
-- Which validations the requests to webook/pkg/migrator/scheduler/scheduler.go leave running.
use weishu.Base.{ap, ◌∙◌, ◌≢◌, ℕ, ◌≡◌, refl, false, none, some, List, [], ◌∷◌, ◌++◌, length}
use weishu.Base.Int.{ℤ}
use weishu.DoubleWrite.Defs.{Pattern, src_only, src_first, dst_first, dst_only, other}
use weishu.DoubleWrite.Pool.{DoubleWritePool, update_pattern}
use weishu.Migrator.Validator.{Validator, full}
use weishu.Migrator.Scheduler.{
  Scheduler, ok_reply, new_scheduler, cancel_run, choose_validator, switch_to,
  start_increment_validation, begin_increment, stop_increment_validation, start_full_validation,
  stop_full_validation, Request, to_src_only, to_src_first, to_dst_first, to_dst_only, start_full,
  stop_full, stop_incr, start_incr, serve, serve_all,
}
use weishu.Migrator.Runs.{
  IsLast, IsBelow, All-append, cancel-IsLast, cancel_run-IsLast, live_incr-last, live_full-new,
  append-IsBelow, cancel_run-IsBelow, cancel-append, All, live_incr, live_full,
}

chosen : (p : Pattern) → p ≢ other → (v : Validator) × (choose_validator p ≡ some v)
unfolding choose_validator
chosen src_only k = (_, refl)
chosen src_first k = (_, refl)
chosen dst_first k = (_, refl)
chosen dst_only k = (_, refl)
chosen other k = absurd (k refl)

module _ {Db Err : Type 0} where
  updated :
      (p : Pattern) (d : DoubleWritePool Db Err) → p ≢ other → (update_pattern p d).1.pattern ≡ p
  unfolding update_pattern
  updated src_only d k = refl
  updated src_first d k = refl
  updated dst_first d k = refl
  updated dst_only d k = refl
  updated other d k = absurd (k refl)

  -- No goroutine is to begin; at most the last incremental validation is live; the runs are numbered
  -- below their number; pool and scheduler have one of the four patterns, the same.
  abbrev IsOrderly : Scheduler Db Err → Type 0
  IsOrderly s =
      (s.pending ≡ [])
      × All (IsLast s.cancel_incr) s.runs
      × All (IsBelow (length s.runs)) s.runs
      × (s.pool.pattern ≡ s.pattern)
      × (s.pattern ≢ other)

  switch_to-IsOrderly :
      (p : Pattern) (s : Scheduler Db Err) → p ≢ other → IsOrderly s → IsOrderly (switch_to p s).1
  unfolding switch_to
  switch_to-IsOrderly p s k (none_waits, last, below, same, known) =
      (none_waits, last, below, updated p s.pool k, k)

  start_full-IsOrderly :
      (s : Scheduler Db Err) → IsOrderly s → IsOrderly (start_full_validation s).1
  unfolding start_full_validation
  start_full-IsOrderly s (none_waits, last, below, same, known) =
      let (v, e) = chosen s.pattern known in
      rw e (
        none_waits,
        All-append (IsLast s.cancel_incr) s.runs _ last (λ q. cc),
        append-IsBelow s.runs _ below refl,
        same,
        known,
      )

  start_incr-IsOrderly :
      (utime : ℕ) (interval : ℤ) (s : Scheduler Db Err)
      → IsOrderly s
      → IsOrderly (serve (start_incr utime interval) s)
  unfolding serve start_increment_validation begin_increment
  start_incr-IsOrderly utime interval s (none_waits, last, below, same, known) =
      let (v, e) = chosen s.pattern known in
      rw (e, none_waits)
        (
          refl,
          cancel-append s.cancel_incr s.runs _ last,
          cancel_run-IsBelow s.cancel_incr (s.runs ++ _ ∷ []) (append-IsBelow s.runs _ below refl),
          same,
          known,
        )

  serve-IsOrderly : (q : Request) (s : Scheduler Db Err) → IsOrderly s → IsOrderly (serve q s)
  unfolding serve stop_full_validation stop_increment_validation
  serve-IsOrderly to_src_only s o = switch_to-IsOrderly src_only s (λ e. cc) o
  serve-IsOrderly to_src_first s o = switch_to-IsOrderly src_first s (λ e. cc) o
  serve-IsOrderly to_dst_first s o = switch_to-IsOrderly dst_first s (λ e. cc) o
  serve-IsOrderly to_dst_only s o = switch_to-IsOrderly dst_only s (λ e. cc) o
  serve-IsOrderly start_full s o = start_full-IsOrderly s o
  serve-IsOrderly (start_incr utime interval) s o = start_incr-IsOrderly utime interval s o
  serve-IsOrderly stop_full s (none_waits, last, below, same, known) = (
    none_waits,
    cancel-IsLast s.cancel_incr s.cancel_full s.runs last,
    cancel_run-IsBelow s.cancel_full s.runs below,
    same,
    known,
  )
  serve-IsOrderly stop_incr s (none_waits, last, below, same, known) = (
    none_waits,
    cancel-IsLast s.cancel_incr s.cancel_incr s.runs last,
    cancel_run-IsBelow s.cancel_incr s.runs below,
    same,
    known,
  )

  serve_all-IsOrderly :
      (qs : List Request) (s : Scheduler Db Err) → IsOrderly s → IsOrderly (serve_all qs s)
  unfolding serve_all
  serve_all-IsOrderly [] s o = o
  serve_all-IsOrderly (q ∷ qs) s o = serve_all-IsOrderly qs (serve q s) (serve-IsOrderly q s o)

  new-IsOrderly :
      (pool : DoubleWritePool Db Err) → pool.pattern ≡ src_only → IsOrderly (new_scheduler pool)
  new-IsOrderly pool e = (refl, tt, tt, e, λ q. cc)

  -- After any requests to a new scheduler over a pool that writes to the source only, the pool has the
  -- pattern of the scheduler, and a full validation can be started.
  pub serve_all_in_step :
      (qs : List Request) (pool : DoubleWritePool Db Err)
      → pool.pattern ≡ src_only
      → let s = serve_all qs (new_scheduler pool) in
        (s.pool.pattern ≡ s.pattern) × ((start_full_validation s).0 ≡ ok_reply)
  unfolding start_full_validation
  serve_all_in_step qs pool e =
      let (none_waits, last, below, same, known) =
        serve_all-IsOrderly qs (new_scheduler pool) (new-IsOrderly pool e) in
      let (v, found) = chosen (serve_all qs (new_scheduler pool)).pattern known in
      (same, rw found refl)

  -- When every incremental validation begins before the next request, stopping it leaves none running,
  -- whatever was requested before.
  pub stop_incr_stops :
      (qs : List Request) (pool : DoubleWritePool Db Err)
      → pool.pattern ≡ src_only
      → live_incr (serve stop_incr (serve_all qs (new_scheduler pool))).runs ≡ 0
  unfolding serve stop_increment_validation
  stop_incr_stops qs pool e =
      let s = serve_all qs (new_scheduler pool) in
      let (none_waits, last, below, same, known) =
        serve_all-IsOrderly qs (new_scheduler pool) (new-IsOrderly pool e) in
      live_incr-last (cancel_run s.cancel_incr s.runs)
        (cancel_run-IsLast s.cancel_incr none s.runs last)

  started_full :
      (v : Validator) (s : Scheduler Db Err)
      → choose_validator s.pattern ≡ some v
      → (start_full_validation s).1 ≡ record s {
        cancel_full = some (length s.runs);
        runs =
            s.runs
            ++ record {
              number = length s.runs;
              is_incr = false;
              validator = full v;
              cancelled = false;
            }
              ∷ [];
      }
  unfolding start_full_validation
  started_full v s e = rw e refl

  -- A full validation that runs when another one is started is never stopped: starting one and
  -- stopping it leaves as many running as there were before.
  pub stop_full_stops_last :
      (qs : List Request) (pool : DoubleWritePool Db Err)
      → pool.pattern ≡ src_only
      → let s = serve_all qs (new_scheduler pool) in
        live_full (serve stop_full (serve start_full s)).runs ≡ live_full s.runs
  unfolding serve stop_full_validation
  stop_full_stops_last qs pool e =
      let s = serve_all qs (new_scheduler pool) in
      let (none_waits, last, below, same, known) =
        serve_all-IsOrderly qs (new_scheduler pool) (new-IsOrderly pool e) in
      let (v, found) = chosen s.pattern known in
      ap (λ (x : Scheduler Db Err). live_full (cancel_run x.cancel_full x.runs))
        (started_full v s found)
      ∙ live_full-new (length s.runs) s.runs _ below refl
