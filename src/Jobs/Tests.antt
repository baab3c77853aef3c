-- ===== src/Jobs/Tests.antt =====
-- Runs of machines that share a table of jobs, and the theorems at concrete inputs.
use weishu.Base.{
  ℕ, zero, suc, ◌≤◌, ◌≡◌, ◌==◌, refl, Bool, false, Option, none, some, List, [], ◌∷◌, ◌++◌, arith,
  replicate,
}
use weishu.Jobs.Dao.{Job, JobStatus, waiting, running, claim, update_utime, update_next_time}
use weishu.Jobs.Workers.{
  looking, holding, Act, select, preempt, refresh, reset_next_time, act, advance, run,
}
use weishu.Jobs.Table.{find}
use weishu.Jobs.Consistency.{holders, runs}
use weishu.Jobs.Exclusion.{run_exclusive}
use weishu.Jobs.Abandoned.{run_abandoned}
use weishu.Jobs.Scheduler.{
  Turn, AllWasted, new_limiter, dispatch, round, schedule, exec, schedule_starves,
}

abbrev job : ℕ → JobStatus → ℕ → Job ℕ
job id s version = record {
  id = id;
  name = 5;
  executor = 6;
  expression = 7;
  cfg = 0;
  status = s;
  version = version;
  next_time = 10;
  utime = 1;
  ctime = 1;
}

abbrev table : List (Job ℕ)
table = job 1 running 4 ∷ job 2 waiting 0 ∷ []

-- Two machines read the same row; the second one to claim it finds nothing to change.
abbrev race : List (ℕ × Act)
race =
    (0, select 20)
    ∷ (1, select 20)
    ∷ (1, preempt 21)
    ∷ (0, preempt 22)
    ∷ (1, refresh 23)
    ∷ (1, reset_next_time 24 90)
    ∷ []

raced : run race table (replicate 2 looking) ≡ (
  job 1 running 4 ∷ record (job 2 running 1) { utime = 24; next_time = 90 } ∷ [],
  looking ∷ holding 2 ∷ [],
)
unfolding run advance act claim update_utime update_next_time
raced = refl

run_exclusive_example :
    let (rows', ws') = run race table (replicate 2 looking) in
    (holders 2 ws' ≤ runs (find 2 rows')) × (holders 2 ws' ≤ 1)
run_exclusive_example =
    run_exclusive race 2 0 5 2 table (omega arith, (omega arith, tt))
      (omega arith, (omega arith, tt)) (omega arith)

run_abandoned_example :
    let (rows', ws') = run race table (replicate 2 looking) in
    (runs (find 1 rows') ≡ 1) × (holders 1 ws' ≡ 0)
run_abandoned_example =
    run_abandoned race 2 0 5 1 table (omega arith, (omega arith, tt))
      (omega arith, (omega arith, tt)) (omega arith) refl

abbrev local_only : ℕ → Bool
local_only name = name == 6

abbrev turn : Option ℕ → Turn ℕ
turn p = record { over = false; finished = 0; preempted = p }

started :
    schedule local_only (turn (some 6) ∷ turn none ∷ turn (some 6) ∷ turn (some 8) ∷ []) new_limiter
    ≡ (record { free = 96; running = 2 }, 2)
unfolding schedule round dispatch
started = refl

wasted : (n : ℕ) → AllWasted local_only (replicate n (turn none))
wasted zero = tt
wasted (suc n) = (refl, wasted n)

schedule_starves_example :
    (schedule local_only (replicate 100 (turn none) ++ turn (some 6) ∷ []) new_limiter).1 ≡ 0
schedule_starves_example =
    schedule_starves local_only (replicate 100 (turn none)) (turn (some 6) ∷ []) (wasted 100)
      (omega arith)

unregistered : exec (λ name. none) 404 (job 1 running 4) ≡ some 404
unfolding exec
unregistered = refl
