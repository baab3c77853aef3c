-- ===== src/Migrator/Scheduler.antt =====
-- webook/pkg/migrator/scheduler/scheduler.go. A request holds the lock, so it is one step; the
-- goroutine that `StartIncrementValidation` starts does its work outside the lock, so it is a step of
-- its own. A context is the number of the run it belongs to.
use weishu.Base.{
  ℕ, zero, suc, Bool, true, false, Option, none, some, List, [], ◌∷◌, ◌++◌, ◌==◌, if◌then◌else◌,
  length, get_elem?, is_nil, ltb, ◌-◌, ◌*◌, ◌%◌, ◌^◌,
}
use weishu.Base.Int.{ℤ, pos, negsuc}
use weishu.DoubleWrite.Defs.{Pattern, src_only, src_first, dst_first, dst_only, other}
use weishu.DoubleWrite.Pool.{DoubleWritePool, update_pattern}
use weishu.Migrator.Events.{src, dst}
use weishu.Migrator.Validator.{
  Validator, new_validator, full, incr, with_utime, with_sleep_interval,
}

-- A validation that was started, and whether its context is cancelled.
pub record Run : Type 0 where
  pub number : ℕ
  pub is_incr : Bool
  pub validator : Validator
  pub cancelled : Bool

-- A goroutine that has not begun yet: the cancel function that it captured, and its validator.
pub record Pending : Type 0 where
  pub cancel : Option ℕ
  pub validator : Validator

-- The fields of `Scheduler` that change, with the runs it has started so far. A cancel function is
-- that of a run, or one that does nothing.
pub record Scheduler (Db Err : Type 0) : Type 0 where
  pub pattern : Pattern
  pub pool : DoubleWritePool Db Err
  pub cancel_full : Option ℕ
  pub cancel_incr : Option ℕ
  pub runs : List Run
  pub pending : List Pending

-- `ginx.Result` and the error: "OK", or code 5, or an empty result.
pub data Reply : Type 0 where
  ok_reply system_error empty_reply : Reply

-- `NewScheduler`
abbrev pub new_scheduler : {Db Err : Type 0} → DoubleWritePool Db Err → Scheduler Db Err
new_scheduler pool = record {
  pattern = src_only;
  pool = pool;
  cancel_full = none;
  cancel_incr = none;
  runs = [];
  pending = [];
}

abbrev pub cancel_run : Option ℕ → List Run → List Run
cancel_run none rs = rs
cancel_run (some n) [] = []
cancel_run (some n) (r ∷ rs) =
    (if r.number == n then record r { cancelled = true } else r) ∷ cancel_run (some n) rs

-- `newValidator`
unfoldable pub choose_validator : Pattern → Option Validator
choose_validator src_only = some (new_validator src)
choose_validator src_first = some (new_validator src)
choose_validator dst_first = some (new_validator dst)
choose_validator dst_only = some (new_validator dst)
choose_validator other = none

abbrev pub remove : {A : Type 0} → ℕ → List A → List A
remove k [] = []
remove zero (x ∷ xs) = xs
remove (suc k) (x ∷ xs) = x ∷ remove k xs

-- An int64 of the bits of a number
abbrev pub int64 : ℕ → ℤ
int64 n =
    let bits = n % 2 ^ 64 in if ltb bits (2 ^ 63) then pos bits else negsuc (2 ^ 64 - 1 - bits)

-- `time.Duration(i) * time.Millisecond`, which is 10^6 nanoseconds; the product wraps around.
unfoldable pub milliseconds : ℤ → ℤ
milliseconds (pos n) = int64 (n * 1000000)
milliseconds (negsuc n) = int64 (2 ^ 64 - (ℕ.suc n * 1000000) % 2 ^ 64)

module _ {Db Err : Type 0} where
  -- `SrcOnly`, `SrcFirst`, `DstFirst` and `DstOnly`, by their pattern.
  unfoldable pub switch_to : Pattern → Scheduler Db Err → Reply × Scheduler Db Err
  switch_to p s =
      let (e, pool) = update_pattern p s.pool in
      (if is_nil e then ok_reply else empty_reply, record s { pattern = p; pool = pool })

  start_incr_by : ℕ → ℤ → Option Validator → Scheduler Db Err → Reply × Scheduler Db Err
  start_incr_by utime interval none s = (system_error, s)
  start_incr_by utime interval (some v) s =
      let v' = with_sleep_interval (milliseconds interval) (with_utime utime (incr v)) in
      (
        ok_reply,
        record s { pending = s.pending ++ record { cancel = s.cancel_incr; validator = v' } ∷ [] },
      )

  -- `StartIncrementValidation`
  unfoldable pub start_increment_validation : ℕ → ℤ → Scheduler Db Err → Reply × Scheduler Db Err
  unfolding start_incr_by
  start_increment_validation utime interval s =
      start_incr_by utime interval (choose_validator s.pattern) s

  begin_pending : ℕ → Option Pending → Scheduler Db Err → Scheduler Db Err
  begin_pending k none s = s
  begin_pending k (some p) s =
      let n = length s.runs in
      let run : Run = record {
        number = n;
        is_incr = true;
        validator = p.validator;
        cancelled = false;
      } in
      record s {
        cancel_incr = some n;
        runs = cancel_run p.cancel (s.runs ++ run ∷ []);
        pending = remove k s.pending;
      }

  -- The goroutine: its context, the cancel function of the one before, and `Validate`.
  unfoldable pub begin_increment : ℕ → Scheduler Db Err → Scheduler Db Err
  unfolding begin_pending
  begin_increment k s = begin_pending k (get_elem? s.pending k) s

  -- `StopIncrementValidation`
  unfoldable pub stop_increment_validation : Scheduler Db Err → Reply × Scheduler Db Err
  stop_increment_validation s = (ok_reply, record s { runs = cancel_run s.cancel_incr s.runs })

  start_full_by : Option Validator → Scheduler Db Err → Reply × Scheduler Db Err
  start_full_by none s = (empty_reply, s)
  start_full_by (some v) s =
      let n = length s.runs in
      let run : Run = record {
        number = n;
        is_incr = false;
        validator = full v;
        cancelled = false;
      } in
      (ok_reply, record s { cancel_full = some n; runs = s.runs ++ run ∷ [] })

  -- `StartFullValidation`
  unfoldable pub start_full_validation : Scheduler Db Err → Reply × Scheduler Db Err
  unfolding start_full_by
  start_full_validation s = start_full_by (choose_validator s.pattern) s

  -- `StopFullValidation`
  unfoldable pub stop_full_validation : Scheduler Db Err → Reply × Scheduler Db Err
  stop_full_validation s = (ok_reply, record s { runs = cancel_run s.cancel_full s.runs })

-- The requests of `RegisterRoutes`; an incremental validation begins before the next request.
pub data Request : Type 0 where
  to_src_only to_src_first to_dst_first to_dst_only : Request
  start_full stop_full stop_incr : Request
  start_incr : ℕ → ℤ → Request

module _ {Db Err : Type 0} where
  unfoldable pub serve : Request → Scheduler Db Err → Scheduler Db Err
  serve to_src_only s = (switch_to src_only s).1
  serve to_src_first s = (switch_to src_first s).1
  serve to_dst_first s = (switch_to dst_first s).1
  serve to_dst_only s = (switch_to dst_only s).1
  serve start_full s = (start_full_validation s).1
  serve stop_full s = (stop_full_validation s).1
  serve stop_incr s = (stop_increment_validation s).1
  serve (start_incr utime interval) s =
      let s' = (start_increment_validation utime interval s).1 in
      begin_increment (length s.pending) s'

  unfoldable pub serve_all : List Request → Scheduler Db Err → Scheduler Db Err
  serve_all [] s = s
  serve_all (q ∷ qs) s = serve_all qs (serve q s)
