-- ===== src/Jobs/Dao.antt =====
-- webook/internal/repository/dao/job.go: the statements of `GORMJobDAO`. The table is the list of its
-- rows by primary key.
use weishu.Base.{
  ℕ, ◌+◌, ◌%◌, ◌^◌, Bool, true, false, ◌&&◌, Option, none, some, List, [], ◌∷◌, ltb, ◌==◌,
  if◌then◌else◌,
}

pub data JobStatus : Type 0 where
  waiting running paused : JobStatus

pub record Job (Text : Type 0) : Type 0 where
  pub id : ℕ
  pub name : Text
  pub executor : Text
  pub expression : Text
  pub cfg : Text
  pub status : JobStatus
  pub version : ℕ
  pub next_time : ℕ
  pub utime : ℕ
  pub ctime : ℕ

abbrev pub is_waiting : JobStatus → Bool
is_waiting waiting = true
is_waiting _ = false

abbrev pub is_running : JobStatus → Bool
is_running running = true
is_running _ = false

module _ {Text : Type 0} where
  -- An `UPDATE` changes the rows of which its condition holds.
  abbrev pub update_rows : (Job Text → Job Text) → List (Job Text) → List (Job Text)
  update_rows f [] = []
  update_rows f (r ∷ rows) = f r ∷ update_rows f rows

  abbrev pub any : (Job Text → Bool) → List (Job Text) → Bool
  any p [] = false
  any p (r ∷ rows) = if p r then true else any p rows

  -- `status = waiting AND next_time < now`
  abbrev pub is_due : ℕ → Job Text → Bool
  is_due now r = is_waiting r.status && ltb r.next_time now

  -- The first statement of `Preempt`.
  abbrev pub first_due : ℕ → List (Job Text) → Option (Job Text)
  first_due now [] = none
  first_due now (r ∷ rows) = if is_due now r then some r else first_due now rows

  -- The second one is an optimistic lock: `id = ? AND version = ?`. The version is an int, so its
  -- successor wraps round.
  abbrev pub is_unchanged : Job Text → Job Text → Bool
  is_unchanged j r = r.id == j.id && r.version == j.version

  abbrev pub claimed : Job Text → ℕ → Job Text → Job Text
  claimed j now r =
      if is_unchanged j r
      then record r { status = running; version = (j.version + 1) % 2 ^ 64; utime = now }
      else r

  unfoldable pub claim : Job Text → ℕ → List (Job Text) → Bool × List (Job Text)
  claim j now rows = (any (is_unchanged j) rows, update_rows (claimed j now) rows)

  abbrev pub released : ℕ → ℕ → Job Text → Job Text
  released id now r = if r.id == id then record r { status = waiting; utime = now } else r

  -- `Release`
  unfoldable pub release : ℕ → ℕ → List (Job Text) → List (Job Text)
  release id now rows = update_rows (released id now) rows

  abbrev pub refreshed : ℕ → ℕ → Job Text → Job Text
  refreshed id now r = if r.id == id then record r { utime = now } else r

  -- `UpdateUtime`
  unfoldable pub update_utime : ℕ → ℕ → List (Job Text) → List (Job Text)
  update_utime id now rows = update_rows (refreshed id now) rows

  abbrev pub postponed : ℕ → ℕ → ℕ → Job Text → Job Text
  postponed id now t r = if r.id == id then record r { utime = now; next_time = t } else r

  -- `UpdateNextTime`
  unfoldable pub update_next_time : ℕ → ℕ → ℕ → List (Job Text) → List (Job Text)
  update_next_time id now t rows = update_rows (postponed id now t) rows
