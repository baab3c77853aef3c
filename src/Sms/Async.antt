-- ===== src/Sms/Async.antt =====
-- webook/internal/service/sms/async/service.go: messages are stored, and a loop takes one at a time
-- and sends it.
use weishu.Base.{ℕ, Bool, List, is_nil}
use weishu.Sms.Service.{Request, Service}
use weishu.Sms.Queue.{
  AsyncSms, Waiting, none_waiting, taken, add, get_waiting_sms, report_schedule_result,
}

-- What the clock and the database do in one round of the loop.
pub record Round : Type 0 where
  pub now : ℕ
  pub take_fails : Bool
  pub reported_at : ℕ
  pub report_fails : Bool

module _ {Text World : Type 0} (svc : Service Text World) where
  send_taken : Round → Waiting Text × List (AsyncSms Text) → World → List (AsyncSms Text) × World
  send_taken t (none_waiting e, rows) w = (rows, w)
  send_taken t (taken r, rows) w =
      let (err, w') = svc r.config w in
      (report_schedule_result t.report_fails t.reported_at r.id (is_nil err) rows, w')

  -- `AsyncSend`; the errors are logged, and it sleeps when there was nothing to send.
  unfoldable pub async_send : Round → List (AsyncSms Text) → World → List (AsyncSms Text) × World
  unfolding send_taken
  async_send t rows w = send_taken t (get_waiting_sms t.take_fails t.now rows) w

-- `Send`: `needAsync` is always true, so the message is stored, with three retries.
unfoldable pub send :
    {Text : Type 0} → ℕ → Request Text → List (AsyncSms Text) → List (AsyncSms Text)
send new_id req rows = add new_id req 3 rows
