-- ===== src/Sms/Queue.antt =====
-- webook/internal/repository/dao/async_sms.go and webook/internal/repository/async_sms_repository.go:
-- the table of messages that wait to be sent. The table is the list of its rows by primary key; a
-- transaction that meets a fault leaves it as it was.
use weishu.Base.{
  ℕ, ◌+◌, Bool, true, false, ◌&&◌, Option, none, some, List, [], ◌∷◌, ◌++◌, ltb, leb, ◌==◌,
  if◌then◌else◌,
}
use weishu.Sms.Service.{Request}

pub data Status : Type 0 where
  waiting failed success : Status

-- `AsyncSms` of the dao, its `SmsConfig` included.
pub record AsyncSms (Text : Type 0) : Type 0 where
  pub id : ℕ
  pub config : Request Text
  pub retry_cnt : ℕ
  pub retry_max : ℕ
  pub status : Status
  pub ctime : ℕ
  pub utime : ℕ

-- `ErrWaitingSMSNotFound`, or a failure of the database.
pub data QueueError : Type 0 where
  waiting_not_found database : QueueError

abbrev pub is_waiting : Status → Bool
is_waiting waiting = true
is_waiting _ = false

-- What `GetWaitingSMS` answers.
pub data Waiting (Text : Type 0) : Type 0 where
  none_waiting : QueueError → Waiting Text
  taken : AsyncSms Text → Waiting Text

module _ {Text : Type 0} where
  -- `UPDATE … WHERE id = ?`
  abbrev pub update_where :
      ℕ → (AsyncSms Text → AsyncSms Text) → List (AsyncSms Text) → List (AsyncSms Text)
  update_where id f [] = []
  update_where id f (r ∷ rows) = (if r.id == id then f r else r) ∷ update_where id f rows

  -- `utime < now - time.Minute and status = waiting`, in milliseconds.
  abbrev pub is_due : ℕ → AsyncSms Text → Bool
  is_due now r = ltb (r.utime + 60000) now && is_waiting r.status

  abbrev pub first_due : ℕ → List (AsyncSms Text) → Option (AsyncSms Text)
  first_due now [] = none
  first_due now (r ∷ rows) = if is_due now r then some r else first_due now rows

  abbrev pub count_retry : ℕ → AsyncSms Text → AsyncSms Text
  count_retry now r = record r { retry_cnt = r.retry_cnt + 1; utime = now }

  -- `Insert`, of what the repository's `Add` gives it: the times and the count are zero.
  unfoldable pub add : ℕ → Request Text → ℕ → List (AsyncSms Text) → List (AsyncSms Text)
  add new_id config retry_max rows =
      rows
      ++ record {
        id = new_id;
        config = config;
        retry_cnt = 0;
        retry_max = retry_max;
        status = waiting;
        ctime = 0;
        utime = 0;
      }
        ∷ []

  take_row : ℕ → List (AsyncSms Text) → Option (AsyncSms Text) → Waiting Text × List (AsyncSms Text)
  take_row now rows none = (none_waiting waiting_not_found, rows)
  take_row now rows (some r) = (taken r, update_where r.id (count_retry now) rows)

  -- `GetWaitingSMS`: the transaction commits, or fails at either statement.
  unfoldable pub get_waiting_sms :
      Bool → ℕ → List (AsyncSms Text) → Waiting Text × List (AsyncSms Text)
  unfolding take_row
  get_waiting_sms fails now rows =
      if fails then (none_waiting database, rows) else take_row now rows (first_due now rows)

  abbrev pub set_success : ℕ → AsyncSms Text → AsyncSms Text
  set_success now r = record r { utime = now; status = success }

  -- The condition on `retry_cnt` is part of the statement.
  abbrev pub set_failed : ℕ → AsyncSms Text → AsyncSms Text
  set_failed now r =
      if leb r.retry_max r.retry_cnt then record r { utime = now; status = failed } else r

  unfoldable pub mark_success : ℕ → ℕ → List (AsyncSms Text) → List (AsyncSms Text)
  mark_success now id rows = update_where id (set_success now) rows

  unfoldable pub mark_failed : ℕ → ℕ → List (AsyncSms Text) → List (AsyncSms Text)
  mark_failed now id rows = update_where id (set_failed now) rows

  -- `ReportScheduleResult`
  unfoldable pub report_schedule_result :
      Bool → ℕ → ℕ → Bool → List (AsyncSms Text) → List (AsyncSms Text)
  unfolding mark_success mark_failed
  report_schedule_result fails now id sent rows =
      if fails then rows else (if sent then mark_success now id rows else mark_failed now id rows)
