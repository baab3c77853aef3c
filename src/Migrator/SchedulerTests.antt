-- ===== src/Migrator/SchedulerTests.antt =====
-- Requests to the scheduler of the migration, and the theorems at concrete inputs.
use weishu.Base.{ℕ, ◌≡◌, refl, some, List, [], ◌∷◌}
use weishu.Base.Int.{pos, negsuc}
use weishu.DoubleWrite.Defs.{src_only, dst_first}
use weishu.DoubleWrite.Pool.{DoubleWritePool, update_pattern}
use weishu.Migrator.Scheduler.{
  milliseconds, ok_reply, new_scheduler, choose_validator, switch_to, start_increment_validation,
  begin_increment, stop_increment_validation, start_full_validation, Request, to_src_first,
  to_dst_first, start_full, stop_incr, start_incr, serve, serve_all,
}
use weishu.Migrator.Runs.{live_incr, live_full}
use weishu.Migrator.Cancelling.{serve_all_in_step, stop_incr_stops}

abbrev pool : DoubleWritePool ℕ ℕ
pool = record { pattern = src_only; world = record { src = 1; dst = 2; log = [] } }

abbrev requests : List Request
requests =
    to_src_first ∷ start_incr 3 (pos 10) ∷ start_full ∷ to_dst_first ∷ start_incr 5 (pos 10) ∷ []

served :
    let s = serve_all requests (new_scheduler pool) in
    (s.pattern ≡ dst_first)
    × (s.cancel_incr ≡ some 2)
    × (live_incr s.runs ≡ 1)
    × (live_full s.runs ≡ 1)
unfolding serve_all serve switch_to update_pattern choose_validator start_increment_validation
    begin_increment start_full_validation
served = (refl, refl, refl, refl)

-- Two requests before the first goroutine begins: stopping leaves one running.
lost :
    let s =
      (start_increment_validation 4
        (pos 10)
        (start_increment_validation 3 (pos 10) (new_scheduler pool)).1).1 in
    live_incr (stop_increment_validation (begin_increment 0 (begin_increment 0 s))).1.runs ≡ 1
unfolding choose_validator start_increment_validation begin_increment stop_increment_validation
lost = refl

-- Ten milliseconds are ten million nanoseconds; less than none, and more than an int64 holds, too.
paused :
    (milliseconds (pos 10) ≡ pos 10000000)
    × (milliseconds (negsuc 1) ≡ negsuc 1999999)
    × (milliseconds (pos 9223372036855) ≡ negsuc 9223372036854551615)
unfolding milliseconds
paused = (refl, refl, refl)

serve_all_in_step_example :
    let s = serve_all requests (new_scheduler pool) in
    (s.pool.pattern ≡ s.pattern) × ((start_full_validation s).0 ≡ ok_reply)
serve_all_in_step_example = serve_all_in_step requests pool refl

stop_incr_stops_example :
    live_incr (serve stop_incr (serve_all requests (new_scheduler pool))).runs ≡ 0
stop_incr_stops_example = stop_incr_stops requests pool refl
