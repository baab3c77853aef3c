-- ===== src/Sms/Tests.antt =====
-- Runs of the services that send messages, and the theorems at concrete inputs.
use weishu.Base.{
  ℕ, ◌+◌, ◌%◌, ◌<◌, ◌≤◌, ◌≡◌, refl, true, false, Option, none, some, List, [], ◌∷◌, arith, length,
  replicate, returns, ◌==◌, if◌then◌else◌,
}
use weishu.Base.Rotate.{rotate}
use weishu.Sms.Service.{
  SmsError, deadline_exceeded, provider, all_failed, limited, Request, Service, verdict,
  rate_limited, authorized,
}
use weishu.Sms.Failover.{send, send_from, send_v1}
use weishu.Sms.Rotation.{answered, try_each, send_v1_rotates}
use weishu.Sms.Timeout.{begun, chosen, advance, interleave}
use weishu.Sms.Switching.{AllInRange, interleave-AllInRange}
use weishu.Sms.Queue.{AsyncSms, waiting, get_waiting_sms, report_schedule_result}
use weishu.Sms.Async.{Round, async_send}
use weishu.Sms.Rows.{sum}
use weishu.Sms.Retries.{attempts, run, counted, run_calls_at_most}

-- The world is the list of the providers called, the last one first.
abbrev down : ℕ → Service ℕ (List ℕ)
down name req w = (some provider, name ∷ w)

abbrev up : ℕ → Service ℕ (List ℕ)
up name req w = (none, name ∷ w)

abbrev three : List (Service ℕ (List ℕ))
three = down 0 ∷ up 1 ∷ down 2 ∷ []

abbrev hello : Request ℕ
hello = record { tpl_id = 7; args = []; numbers = 1 ∷ [] }

from_the_first : send three hello [] ≡ (none, 1 ∷ 0 ∷ [])
unfolding send
from_the_first = refl

from_the_third : send_v1 three 1 hello [] ≡ ((returns none, 1 ∷ 0 ∷ 2 ∷ []), 2)
unfolding send_v1 send_from
from_the_third = refl

no_service : send_v1 {World = List ℕ} [] 1 hello [] ≡ ((returns (some all_failed), []), 2)
unfolding send_v1 send_from
no_service = refl

behind_a_limiter : rate_limited (λ key w. (verdict true, w)) 3 (up 1) hello [] ≡ (some limited, [])
unfolding rate_limited
behind_a_limiter = refl

by_token :
    authorized (λ token. some (token + 1)) (λ req w. (none, req.tpl_id ∷ w)) hello []
    ≡ (none, 8 ∷ [])
unfolding authorized
by_token = refl

send_v1_rotates_example :
    send_v1 three 4 hello [] ≡ (answered (try_each (rotate (5 % length three) three) hello []), 5)
send_v1_rotates_example = send_v1_rotates three 4 hello [] (omega arith)

-- Two calls that meet at the threshold.
abbrev racing : List (ℕ × Option SmsError)
racing = (0, none) ∷ (1, none) ∷ (0, none) ∷ (1, none) ∷ (0, none) ∷ (1, none) ∷ (0, none) ∷ []

race :
    interleave 3 2 racing (begun ∷ begun ∷ []) (record { idx = 2; cnt = 2 })
    ≡ (record { idx = 0; cnt = 0 }, chosen 0 ∷ chosen 0 ∷ [])
unfolding interleave advance
race = refl

interleave-AllInRange_example :
    let (s', cs') = interleave 3 2 racing (begun ∷ begun ∷ []) (record { idx = 2; cnt = 2 }) in
    (s'.idx < 3) × AllInRange 3 cs'
interleave-AllInRange_example =
    interleave-AllInRange 3 2 (omega arith) racing (begun ∷ begun ∷ [])
      (record { idx = 2; cnt = 2 }) (omega arith) (tt, (tt, tt))

-- The third service times out, and the first one answers.
abbrev third_is_down : ℕ → Option SmsError
third_is_down i = if i == 2 then some deadline_exceeded else none

abbrev stored : ℕ → ℕ → AsyncSms ℕ
stored id left = record {
  id = id;
  config = hello;
  retry_cnt = 0;
  retry_max = left;
  status = waiting;
  ctime = 0;
  utime = 0;
}

abbrev at : ℕ → Round
at now = record { now = now; take_fails = false; reported_at = now; report_fails = false }

abbrev rounds : List Round
rounds = at 60001 ∷ at 60002 ∷ at 60003 ∷ at 200000 ∷ at 300000 ∷ at 400000 ∷ []

-- The first message is sent twice, the second one three times, and then no more.
sent : (run (counted (down 0)) rounds (stored 1 2 ∷ stored 4 3 ∷ []) ([], 0)).1 ≡ (replicate 5 0, 5)
unfolding async_send get_waiting_sms report_schedule_result
sent = refl

run_calls_at_most_example :
    (run (counted (down 0)) rounds (stored 1 2 ∷ stored 4 3 ∷ []) ([], 0)).1.1
    ≤ 0 + sum attempts (stored 1 2 ∷ stored 4 3 ∷ [])
run_calls_at_most_example =
    run_calls_at_most (down 0) rounds 0 0 (stored 1 2 ∷ stored 4 3 ∷ []) []
      (refl, (refl, (refl, (refl, (refl, (refl, tt)))))) (omega arith, (omega arith, tt))
      (λ k. omega arith, (λ k. omega arith, tt))
