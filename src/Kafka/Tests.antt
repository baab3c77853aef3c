-- ===== src/Kafka/Tests.antt =====
-- A claim with a bad message, and the theorem at it.
use weishu.Base.{ℕ, ◌≡◌, ◌==◌, refl, Option, none, some, List, [], ◌∷◌, ◌++◌, if◌then◌else◌}
use weishu.Kafka.Batch.{Event, timed_out, closed, message, consume_claim, consume_from}
use weishu.Kafka.Received.{received, marked, given, with_good_twice, parsed, consume_claim-batches}

-- The message 0 is no value.
abbrev value : ℕ → Option ℕ
value m = if m == 0 then none else some m

abbrev events : List (Event ℕ)
events = message 3 ∷ message 0 ∷ timed_out ∷ message 4 ∷ closed ∷ message 5 ∷ []

consumed : consume_claim value events ≡ (
  record { batch = 3 ∷ 3 ∷ 0 ∷ []; ts = 3 ∷ [] } ∷ [],
  record { batch = 4 ∷ 4 ∷ []; ts = 4 ∷ [] },
)
unfolding consume_claim consume_from
consumed = refl

consume_claim-batches_example :
    let (calls, rest) = consume_claim value events in
    (marked calls ++ rest.batch ≡ with_good_twice value (received events))
    × (given calls ++ rest.ts ≡ parsed value (received events))
consume_claim-batches_example = consume_claim-batches value events
