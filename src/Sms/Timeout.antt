-- ===== src/Sms/Timeout.antt =====
-- webook/internal/service/sms/failover/timeout_failover.go. The two counters are shared by all
-- calls and touched by atomic operations only, so a call is a program of such operations, between
-- which other calls may run. A counter is an int32: its bit pattern, below 2^32.
use weishu.Base.{
  ℕ, zero, suc, ◌+◌, ◌%◌, ◌^◌, Bool, Option, none, some, List, [], ◌∷◌, leb, ◌==◌, if◌then◌else◌,
}
use weishu.Sms.Service.{SmsError, deadline_exceeded}

abbrev pub u32 : ℕ → ℕ
u32 n = n % 2 ^ 32

-- `a >= b` on int32 bit patterns.
abbrev pub ge_int32 : ℕ → ℕ → Bool
ge_int32 a b = leb (u32 (b + 2 ^ 31)) (u32 (a + 2 ^ 31))

-- The fields of `TimeoutFailoverSMSService` that change; there are `size` services, fewer than
-- 2^31, and `threshold` is read only.
pub record Counters : Type 0 where
  pub idx : ℕ
  pub cnt : ℕ

-- Where a call stands, with its local variables. `asked i` has called service i and has its error.
pub data Call : Type 0 where
  begun : Call
  with_idx : ℕ → Call
  with_cnt : ℕ → ℕ → Call
  swapped : ℕ → Call
  chosen : ℕ → Call
  asked : ℕ → Option SmsError → Call
  returned : Option SmsError → Call
  panicked : Call

module _ (size threshold : ℕ) where
  -- `cnt >= threshold`: the next index replaces the one that was loaded, if that is still there.
  choose : ℕ → ℕ → Counters → Counters × Call
  choose i c s =
      if ge_int32 c threshold
      then (if size == 0
          then (s, panicked)
          else (if s.idx == i
              then (record s { idx = u32 (i + 1) % size }, swapped (u32 (i + 1) % size))
              else (s, chosen (u32 (i + 1) % size))))
      else (s, chosen i)

  -- `t.svcs[idx]`, which panics out of range, and the call.
  ask : ℕ → Option SmsError → Counters → Counters × Call
  ask i answer s = if leb size i then (s, panicked) else (s, asked i answer)

  -- The `switch` on the error.
  settle : Option SmsError → Counters → Counters × Call
  settle none s = (record s { cnt = 0 }, returned none)
  settle (some deadline_exceeded) s =
      (record s { cnt = u32 (s.cnt + 1) }, returned (some deadline_exceeded))
  settle (some e) s = (s, returned (some e))

  -- One atomic operation of `Send`; `answer` is the service's, if it is called here.
  unfoldable pub advance : Option SmsError → Call → Counters → Counters × Call
  unfolding choose ask settle
  advance answer begun s = (s, with_idx s.idx)
  advance answer (with_idx i) s = (s, with_cnt i s.cnt)
  advance answer (with_cnt i c) s = choose i c s
  advance answer (swapped i) s = (record s { cnt = 0 }, chosen i)
  advance answer (chosen i) s = ask i answer s
  advance answer (asked i err) s = settle err s
  advance answer (returned err) s = (s, returned err)
  advance answer panicked s = (s, panicked)

  -- A call with no other beside it: six operations are enough. The services answer as `svcs` says, and
  -- the one that is asked gives the answer.
  abbrev pub answer_of : (ℕ → Option SmsError) → Call → Option SmsError
  answer_of svcs (chosen i) = svcs i
  answer_of svcs c = none

  unfoldable pub finish_by : ℕ → (ℕ → Option SmsError) → Call → Counters → Counters × Call
  unfolding advance
  finish_by zero svcs c s = (s, c)
  finish_by (suc n) svcs c s =
      let (s', c') = advance (answer_of svcs c) c s in finish_by n svcs c' s'

  -- `TimeoutFailoverSMSService.Send` of one caller at a time.
  unfoldable pub send_by : (ℕ → Option SmsError) → Counters → Counters × Call
  unfolding finish_by
  send_by svcs s = finish_by 6 svcs begun s

  -- `k` calls, one after another
  unfoldable pub send_times : (ℕ → Option SmsError) → ℕ → Counters → Counters
  send_times svcs zero s = s
  send_times svcs (suc k) s = send_times svcs k (send_by svcs s).0

  -- Several calls: a step of the schedule names a call and what its service would answer.
  abbrev pub advance_at : ℕ → Option SmsError → List Call → Counters → Counters × List Call
  advance_at k answer [] s = (s, [])
  advance_at zero answer (c ∷ cs) s = let (s', c') = advance answer c s in (s', c' ∷ cs)
  advance_at (suc k) answer (c ∷ cs) s = let (s', cs') = advance_at k answer cs s in (s', c ∷ cs')

  unfoldable pub interleave :
      List (ℕ × Option SmsError) → List Call → Counters → Counters × List Call
  interleave [] cs s = (s, cs)
  interleave ((k, answer) ∷ steps) cs s =
      let (s', cs') = advance_at k answer cs s in interleave steps cs' s'
