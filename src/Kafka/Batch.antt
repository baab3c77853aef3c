-- ===== src/Kafka/Batch.antt =====
-- webook/pkg/samarax/batch_hanler.go: `BatchHandler.ConsumeClaim`. What the `select` takes next is an
-- event; `parse` is json.Unmarshal into the handler's type.
use weishu.Base.{ℕ, zero, suc, Option, none, some, List, [], ◌∷◌, ◌++◌}

pub data Event (Msg : Type 0) : Type 0 where
  timed_out closed : Event Msg
  message : Msg → Event Msg

-- One call of `fn`; its error is only logged, and every message of its batch is marked.
pub record Handled (Msg T : Type 0) : Type 0 where
  pub batch : List Msg
  pub ts : List T

-- The batch that is being filled.
pub record Filling (Msg T : Type 0) : Type 0 where
  pub batch : List Msg
  pub ts : List T

-- `batchSize` is 10: nine more messages may follow the first one.
abbrev pub more_than_first : ℕ
more_than_first = 9

abbrev pub empty_batch : {Msg T : Type 0} → Filling Msg T
empty_batch = record { batch = []; ts = [] }

module _ {Msg T : Type 0} (parse : Msg → Option T) where
  -- One message: a good one is appended to the batch twice, a bad one once.
  abbrev pub add_to : Option T → Msg → Filling Msg T → Filling Msg T
  add_to none m s = record s { batch = s.batch ++ m ∷ [] }
  add_to (some t) m s = record s { batch = (s.batch ++ m ∷ []) ++ m ∷ []; ts = s.ts ++ t ∷ [] }

  abbrev pub hand_over : Filling Msg T → Handled Msg T
  hand_over s = record { batch = s.batch; ts = s.ts }

  -- The loop: the calls of `fn` in their order, and the batch at the end of the events. The message
  -- that comes next may be followed by `left` more in its batch. A closed channel ends the loop, with
  -- the batch left aside.
  unfoldable pub consume_from :
      ℕ → Filling Msg T → List (Event Msg) → List (Handled Msg T) × Filling Msg T
  consume_from left s [] = ([], s)
  consume_from left s (closed ∷ es) = ([], s)
  consume_from left s (timed_out ∷ es) =
      let (calls, s') = consume_from more_than_first empty_batch es in (hand_over s ∷ calls, s')
  consume_from zero s (message m ∷ es) =
      let (calls, s') = consume_from more_than_first empty_batch es in
      (hand_over (add_to (parse m) m s) ∷ calls, s')
  consume_from (suc left) s (message m ∷ es) = consume_from left (add_to (parse m) m s) es

  unfoldable pub consume_claim : List (Event Msg) → List (Handled Msg T) × Filling Msg T
  unfolding consume_from
  consume_claim es = consume_from more_than_first empty_batch es
