-- ===== src/Sms/Failover.antt =====
-- webook/internal/service/sms/failover/failover.go.
use weishu.Base.{
  ℕ, zero, suc, ◌+◌, ◌%◌, ◌^◌, Bool, true, false, Option, none, some, List, [], ◌∷◌, get_elem?,
  length, ltb, if◌then◌else◌, Outcome, returns, panics,
}
use weishu.Sms.Service.{SmsError, canceled, deadline_exceeded, all_failed, Request, Service}

abbrev pub u64 : ℕ → ℕ
u64 n = n % 2 ^ 64

-- The `switch` of `SendV1`: the loop ends with an answer, or tries the next index.
abbrev pub stops : Option SmsError → Bool
stops none = true
stops (some canceled) = true
stops (some deadline_exceeded) = true
stops (some e) = false

module _ {Text World : Type 0} where
  -- `FailOverSMSService.Send`: the services in their order, until one answers nil.
  unfoldable pub send : List (Service Text World) → Service Text World
  send [] req w = (some all_failed, w)
  send (svc ∷ svcs) req w =
      let (err, w') = svc req w in elim err [ none ↦ (none, w') | some e ↦ send svcs req w' ]

  -- The loop of `SendV1`, from `i` while it is below `limit`, with one round of fuel more
  -- than there are services. An index out of range panics; so does the model without fuel.
  unfoldable pub send_from :
      List (Service Text World)
      → ℕ
      → ℕ
      → ℕ
      → Request Text
      → World
      → Outcome (Option SmsError) × World
  send_from svcs zero limit i req w = (panics, w)
  send_from svcs (suc n) limit i req w =
      if ltb i limit
      then (elim (get_elem? svcs (i % length svcs)) [
        | none ↦ (panics, w)
        | some svc ↦
            let (err, w') = svc req w in
            elim (stops err) [
              | true ↦ (returns err, w')
              | false ↦ send_from svcs n limit (u64 (i + 1)) req w'
            ]
      ])
      else (returns (some all_failed), w)

  -- `SendV1`: the answer, the world, and the shared index after `atomic.AddUint64`.
  unfoldable pub send_v1 :
      List (Service Text World) → ℕ → Request Text → World → (Outcome (Option SmsError) × World) × ℕ
  send_v1 svcs idx req w =
      let idx' = u64 (idx + 1) in
      (send_from svcs (suc (length svcs)) (u64 (idx' + length svcs)) idx' req w, idx')
