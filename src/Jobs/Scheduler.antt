-- ===== src/Jobs/Scheduler.antt =====
-- webook/internal/job/mysql_job.go: `Schedule`, its limiter and its executors, and what an execution
-- does to the table by way of webook/internal/service/job.go.
use mathlib.Core.Option.{map}
use Prim.Native.Nat.{min}
use weishu.Base.{
  ℕ, zero, suc, ◌+◌, ◌-◌, ◌≤◌, ◌≡◌, refl, ◌∙◌, ap, Bool, true, false, ◌&&◌, Option, none, some,
  List, [], ◌∷◌, ◌++◌, arith, ltb, ◌==◌, if◌then◌else◌, length, not, Bool-cases, inl, inr,
}
use weishu.Jobs.Dao.{Job, update_rows, is_due, released, release, postponed, update_next_time}
use weishu.Jobs.Table.{find, find-update_rows, find_id}

-- `LocalFuncExecutor.Exec`: the error of a name that is not registered, or what the function returns.
module _ {Text : Type 0} where
  unfoldable pub exec : (Text → Option (Job Text → Option Text)) → Text → Job Text → Option Text
  exec funcs not_registered j = elim (funcs j.name) [ none ↦ some not_registered | some fn ↦ fn j ]

  -- The goroutine of `Schedule`: the next time is set when the job succeeded, and then the deferred
  -- function releases the job. A statement may fail.
  unfoldable pub finish_job : Bool → Bool → Bool → ℕ → ℕ → ℕ → List (Job Text) → List (Job Text)
  finish_job succeeds reset_fails release_fails id now t rows =
      let rows' = if succeeds && not reset_fails then update_next_time id now t rows else rows in
      if release_fails then rows' else release id now rows'

-- The limiter, and the executions that still run.
pub record Limiter : Type 0 where
  pub free : ℕ
  pub running : ℕ

-- What happens in one round of `Schedule`: whether the context is over, how many executions end
-- before or while it waits for the limiter, and the executor's name in the job that it preempts.
pub record Turn (Text : Type 0) : Type 0 where
  pub over : Bool
  pub finished : ℕ
  pub preempted : Option Text

abbrev pub end_some : ℕ → Limiter → Limiter
end_some n s = record { free = s.free + min n s.running; running = s.running - n }

-- `NewScheduler`: a hundred executions at a time.
abbrev pub new_limiter : Limiter
new_limiter = record { free = 100; running = 0 }

abbrev pub tokens : Limiter → ℕ
tokens s = s.free + s.running

module _ {Text : Type 0} (registered : Text → Bool) where
  -- After the limiter is acquired: `continue` without a job or its executor, else a goroutine.
  unfoldable pub dispatch : Option Text → Limiter → Limiter × ℕ
  dispatch none s = (s, 0)
  dispatch (some name) s =
      if registered name then (record s { running = suc s.running }, 1) else (s, 0)

  -- `Acquire` and what follows it; without a free token the round waits.
  unfoldable pub round : Option Text → Limiter → Limiter × ℕ
  round p s = if s.free == 0 then (s, 0) else dispatch p (record s { free = s.free - 1 })

  -- `Schedule`: the limiter, and how many executions it started.
  unfoldable pub schedule : List (Turn Text) → Limiter → Limiter × ℕ
  schedule [] s = (s, 0)
  schedule (t ∷ ts) s =
      let (s', n) = round t.preempted (end_some t.finished s) in
      let (s'', m) = schedule ts s' in if t.over then (s, 0) else (s'', n + m)

  -- The round preempts no job, or one without an executor here.
  abbrev pub is_wasted : Option Text → Bool
  is_wasted none = true
  is_wasted (some name) = not (registered name)

  tokens-end_some : (n : ℕ) (s : Limiter) → tokens (end_some n s) ≡ tokens s
  tokens-end_some n s = omega arith

  tokens-round : (p : Option Text) (s : Limiter) → tokens (round p s).0 ≤ tokens s
  unfolding round dispatch
  tokens-round none s = ground arith
  tokens-round (some name) s = ground arith

  -- Any rounds leave at most as many tokens and running executions together as there were.
  tokens-schedule : (ts : List (Turn Text)) (s : Limiter) → tokens (schedule ts s).0 ≤ tokens s
  unfolding schedule
  tokens-schedule [] s = omega arith
  tokens-schedule (t ∷ ts) s =
      let s' = (round t.preempted (end_some t.finished s)).0 in
      let rest = tokens-schedule ts s' in
      let one = tokens-round t.preempted (end_some t.finished s) in
      elim (Bool-cases t.over) [
        | inl e ↦ rw e (omega arith)
        | inr e ↦ rw e (omega (arith, rest, one, tokens-end_some t.finished s))
      ]

  abbrev pub AllWasted : List (Turn Text) → Type 0
  AllWasted [] = Unit
  AllWasted (t ∷ ts) = (is_wasted t.preempted ≡ true) × AllWasted ts

  idle : ℕ → Limiter
  idle k = record { free = k; running = 0 }

  end_none : (n k : ℕ) → end_some n (idle k) ≡ idle k
  unfolding idle
  end_none n k =
      let added : k + min n 0 ≡ k = omega arith in
      let left : 0 - n ≡ 0 = omega arith in rw (added, left)

  round_wasted :
      (p : Option Text) (k : ℕ) → is_wasted p ≡ true → round p (idle k) ≡ (idle (k - 1), 0)
  unfolding round dispatch idle
  round_wasted none zero h = refl
  round_wasted none (suc k) h = ground arith
  round_wasted (some name) zero h = refl
  round_wasted (some name) (suc k) h = ground arith

  round_blocked : (p : Option Text) → round p (idle 0) ≡ (idle 0, 0)
  unfolding round idle
  round_blocked p = refl

  schedule_step :
      (t : Turn Text) (ts : List (Turn Text)) (k k' : ℕ)
      → round t.preempted (idle k) ≡ (idle k', 0)
      → (schedule ts (idle k')).1 ≡ 0
      → (schedule (t ∷ ts) (idle k)).1 ≡ 0
  unfolding schedule
  schedule_step t ts k k' h rest = elim (Bool-cases t.over) [
    | inl e ↦ rw e refl
    | inr e ↦ rw (e, end_none t.finished k, h) (omega (arith, rest))
  ]

  starved :
      (k : ℕ) (ts later : List (Turn Text))
      → AllWasted ts
      → k ≤ length ts
      → (schedule (ts ++ later) (idle k)).1 ≡ 0
  unfolding schedule
  starved zero [] [] w h = refl
  starved zero [] (t ∷ later) w h =
      schedule_step t later 0 0 (round_blocked t.preempted) (starved zero [] later tt (omega arith))
  starved (suc k) [] later w h = absurd (omega arith)
  starved k (t ∷ ts) later (w, ws) h =
      schedule_step t (ts ++ later) k (k - 1) (round_wasted t.preempted k w)
        (starved (k - 1) ts later ws (omega arith))

  -- At most a hundred executions run at a time, whatever happens in the rounds.
  pub schedule_at_most : (ts : List (Turn Text)) → (schedule ts new_limiter).0.running ≤ 100
  schedule_at_most ts = omega (arith, tokens-schedule ts new_limiter)

  -- A round that preempts no job, or one whose executor is not registered, keeps its token for ever:
  -- when the first hundred rounds are such, no round behind them ever starts a job.
  pub schedule_starves :
      (ts later : List (Turn Text))
      → AllWasted ts
      → 100 ≤ length ts
      → (schedule (ts ++ later) new_limiter).1 ≡ 0
  unfolding idle
  schedule_starves ts later w h = starved 100 ts later w h

module _ {Text : Type 0} where
  find-updated :
      (f : Job Text → Job Text) (id : ℕ) (rows : List (Job Text)) (r : Job Text)
      → ((r : Job Text) → (f r).id ≡ r.id)
      → find id rows ≡ some r
      → find id (update_rows f rows) ≡ some (f r)
  find-updated f id rows r k h = find-update_rows f id rows k ∙ ap (map f) h

  -- When the execution of a job is over and its statements succeed, the job is due for every machine
  -- whose clock is past the next time, if the job succeeded, and past the old one, if it failed.
  pub finish_job_due :
      (succeeds : Bool) (id now t later : ℕ) (rows : List (Job Text)) (r : Job Text)
      → find id rows ≡ some r
      → map (is_due later) (find id (finish_job succeeds false false id now t rows))
        ≡ some (if succeeds then ltb t later else ltb r.next_time later)
  unfolding finish_job release update_next_time
  finish_job_due true id now t later rows r h =
      let same = find_id id rows r h in
      let set_time = find-updated (postponed id now t) id rows r (λ r. ground arith) h in
      let found =
        find-updated (released id now) id (update_rows (postponed id now t) rows)
          (postponed id now t r) (λ r. ground arith) set_time in
      ap (map (is_due later)) found ∙ ground (arith, same)
  finish_job_due false id now t later rows r h =
      let same = find_id id rows r h in
      ap (map (is_due later)) (find-updated (released id now) id rows r (λ r. ground arith) h)
      ∙ ground (arith, same)
