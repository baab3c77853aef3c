-- ===== src/Sms/Switching.antt =====
-- The counters of the timeout failover: under every interleaving of calls, and of calls one by one.
use weishu.Base.{ℕ, zero, suc, ◌+◌, ◌%◌, ◌^◌, ◌<◌, Option, none, some, List, [], ◌∷◌, arith}
use weishu.Sms.Service.{SmsError, deadline_exceeded}
use weishu.Sms.Timeout.{
  u32, Counters, Call, begun, with_idx, with_cnt, swapped, chosen, asked, panicked, advance,
  advance_at, interleave,
}

-- An index that a call holds is that of a service, and it has not panicked.
abbrev pub IsInRange : ℕ → Call → Type 0
IsInRange size (with_idx i) = i < size
IsInRange size (with_cnt i c) = i < size
IsInRange size (swapped i) = i < size
IsInRange size (chosen i) = i < size
IsInRange size panicked = ⊥
IsInRange size _ = Unit

abbrev pub AllInRange : ℕ → List Call → Type 0
AllInRange size [] = Unit
AllInRange size (c ∷ cs) = IsInRange size c × AllInRange size cs

next_in_range : (size : ℕ) → 0 < size → (i : ℕ) → u32 (i + 1) % size < size
next_in_range size h i = omega arith

module _ (size threshold : ℕ) (some_service : 0 < size) where
  advance-IsInRange :
      (answer : Option SmsError) (c : Call) (s : Counters)
      → s.idx < size
      → IsInRange size c
      → let (s', c') = advance size threshold answer c s in (s'.idx < size) × IsInRange size c'
  unfolding advance
  advance-IsInRange answer (with_cnt i c) s h r = ground (arith, next_in_range size some_service i)
  advance-IsInRange answer begun s h r = ground arith
  advance-IsInRange answer (asked i none) s h r = ground arith
  advance-IsInRange answer (asked i (some e)) s h r = ground arith
  advance-IsInRange answer _ s h r = ground arith

  advance_at-AllInRange :
      (k : ℕ) (answer : Option SmsError) (cs : List Call) (s : Counters)
      → s.idx < size
      → AllInRange size cs
      → let (s', cs') = advance_at size threshold k answer cs s in
        (s'.idx < size) × AllInRange size cs'
  advance_at-AllInRange k answer [] s h r = (h, tt)
  advance_at-AllInRange zero answer (c ∷ cs) s h r =
      let (h', r') = advance-IsInRange answer c s h r.0 in (h', (r', r.1))
  advance_at-AllInRange (suc k) answer (c ∷ cs) s h r =
      let (h', r') = advance_at-AllInRange k answer cs s h r.1 in (h', (r.0, r'))

  -- With at least one service and the counter at one of them, any interleaving of any calls, whatever
  -- the services answer, leaves the counter and every index that a call holds at a service. No call
  -- panics.
  pub interleave-AllInRange :
      (steps : List (ℕ × Option SmsError)) (cs : List Call) (s : Counters)
      → s.idx < size
      → AllInRange size cs
      → let (s', cs') = interleave size threshold steps cs s in
        (s'.idx < size) × AllInRange size cs'
  unfolding interleave
  interleave-AllInRange [] cs s h r = (h, r)
  interleave-AllInRange ((k, answer) ∷ steps) cs s h r =
      let (s', cs') = advance_at size threshold k answer cs s in
      let (h', r') = advance_at-AllInRange k answer cs s h r in
      interleave-AllInRange steps cs' s' h' r'

module _ (size threshold : ℕ) (few : size < 2 ^ 31) (low : threshold < 2 ^ 31) where
  -- The error of the last call, and the count that it leaves.
  abbrev pub count_after : Option SmsError → ℕ
  count_after (some deadline_exceeded) = 1
  count_after _ = 0
