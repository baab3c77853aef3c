-- ===== src/Jobs/Workers.antt =====
-- The machines that share the table. A machine is somewhere in `Preempt` of
-- webook/internal/repository/dao/job.go, or runs the job it has preempted, as
-- webook/internal/service/job.go and webook/internal/job/mysql_job.go have it; between any two
-- statements others may run.
use weishu.Base.{ℕ, Bool, Option, none, some, List, [], ◌∷◌, get_elem?, set, if◌then◌else◌}
use weishu.Jobs.Dao.{Job, first_due, claim, release, update_utime, update_next_time}

-- Looking for a job; with a row that it has read; running the job with an id.
pub data Worker (Text : Type 0) : Type 0 where
  looking : Worker Text
  selected : Job Text → Worker Text
  holding : ℕ → Worker Text

-- What a machine does next, and its clock. `give_up` is any failure: of a statement, of the machine,
-- or of the executor that is not registered; a statement that failed changed nothing.
pub data Act : Type 0 where
  select preempt refresh : ℕ → Act
  reset_next_time : ℕ → ℕ → Act
  cancel_func : ℕ → Act
  give_up : Act

module _ {Text : Type 0} where
  read : Option (Job Text) → Worker Text
  read none = looking
  read (some j) = selected j

  -- `RowsAffected == 0` sends the loop of `Preempt` round again.
  after_claim : ℕ → Bool × List (Job Text) → List (Job Text) × Worker Text
  after_claim id (affected, rows) = (rows, if affected then holding id else looking)

  unfoldable pub act : Act → Worker Text → List (Job Text) → List (Job Text) × Worker Text
  unfolding read after_claim
  act (select now) looking rows = (rows, read (first_due now rows))
  act (preempt now) (selected j) rows = after_claim j.id (claim j now rows)
  act (refresh now) (holding id) rows = (update_utime id now rows, holding id)
  act (reset_next_time now t) (holding id) rows = (update_next_time id now t rows, holding id)
  act (cancel_func now) (holding id) rows = (release id now rows, looking)
  act give_up w rows = (rows, looking)
  act a w rows = (rows, w)

  act_at :
      ℕ
      → Act
      → Option (Worker Text)
      → List (Job Text)
      → List (Worker Text)
      → List (Job Text) × List (Worker Text)
  act_at k a none rows ws = (rows, ws)
  act_at k a (some w) rows ws = let (rows', w') = act a w rows in (rows', set ws k w')

  unfoldable pub advance :
      ℕ → Act → List (Job Text) → List (Worker Text) → List (Job Text) × List (Worker Text)
  unfolding act_at
  advance k a rows ws = act_at k a (get_elem? ws k) rows ws

  -- A schedule says which machine does what.
  unfoldable pub run :
      List (ℕ × Act) → List (Job Text) → List (Worker Text) → List (Job Text) × List (Worker Text)
  run [] rows ws = (rows, ws)
  run ((k, a) ∷ steps) rows ws = let (rows', ws') = advance k a rows ws in run steps rows' ws'
