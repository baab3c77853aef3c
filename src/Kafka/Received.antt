-- ===== src/Kafka/Received.antt =====
-- What `ConsumeClaim` of webook/pkg/samarax/batch_hanler.go hands over, of what it received.
use weishu.Base.{ℕ, zero, suc, ◌≡◌, refl, sym, ◌∙◌, ap, Option, none, some, List, [], ◌∷◌, ◌++◌}
use weishu.Kafka.Batch.{
  Event, timed_out, closed, message, Handled, Filling, more_than_first, empty_batch, add_to,
  consume_from, consume_claim,
}

append_assoc : {A : Type 0} → (xs ys zs : List A) → (xs ++ ys) ++ zs ≡ xs ++ (ys ++ zs)
append_assoc [] ys zs = refl
append_assoc (x ∷ xs) ys zs = ap (λ l. x ∷ l) (append_assoc xs ys zs)

append_nil : {A : Type 0} → (xs : List A) → xs ++ [] ≡ xs
append_nil [] = refl
append_nil (x ∷ xs) = ap (λ l. x ∷ l) (append_nil xs)

-- The messages before the channel is closed.
abbrev pub received : {Msg : Type 0} → List (Event Msg) → List Msg
received [] = []
received (closed ∷ es) = []
received (timed_out ∷ es) = received es
received (message m ∷ es) = m ∷ received es

module _ {Msg T : Type 0} where
  -- The messages that were marked, and the values that `fn` was given.
  abbrev pub marked : List (Handled Msg T) → List Msg
  marked [] = []
  marked (c ∷ cs) = c.batch ++ marked cs

  abbrev pub given : List (Handled Msg T) → List T
  given [] = []
  given (c ∷ cs) = c.ts ++ given cs

  module _ (parse : Msg → Option T) where
    abbrev pub with_good_twice : List Msg → List Msg
    with_good_twice [] = []
    with_good_twice (m ∷ ms) = elim (parse m) [
      | none ↦ m ∷ with_good_twice ms
      | some t ↦ m ∷ m ∷ with_good_twice ms
    ]

    abbrev pub parsed : List Msg → List T
    parsed [] = []
    parsed (m ∷ ms) = elim (parse m) [ none ↦ parsed ms | some t ↦ t ∷ parsed ms ]

    add_batch :
        (o : Option T) (m : Msg) (s : Filling Msg T) (xs : List Msg)
        → (add_to parse o m s).batch ++ xs
          ≡ s.batch ++ elim o [ none ↦ m ∷ xs | some t ↦ m ∷ m ∷ xs ]
    add_batch none m s xs = append_assoc s.batch (m ∷ []) xs
    add_batch (some t) m s xs =
        append_assoc (s.batch ++ m ∷ []) (m ∷ []) xs ∙ append_assoc s.batch (m ∷ []) (m ∷ xs)

    add_ts :
        (o : Option T) (m : Msg) (s : Filling Msg T) (xs : List T)
        → (add_to parse o m s).ts ++ xs ≡ s.ts ++ elim o [ none ↦ xs | some t ↦ t ∷ xs ]
    add_ts none m s xs = refl
    add_ts (some t) m s xs = append_assoc s.ts (t ∷ []) xs

    consume_from-batches :
        (left : ℕ) (s : Filling Msg T) (es : List (Event Msg))
        → let (calls, rest) = consume_from parse left s es in
          (marked calls ++ rest.batch ≡ s.batch ++ with_good_twice (received es))
          × (given calls ++ rest.ts ≡ s.ts ++ parsed (received es))
    unfolding consume_from
    consume_from-batches left s [] = (sym (append_nil s.batch), sym (append_nil s.ts))
    consume_from-batches left s (closed ∷ es) = (sym (append_nil s.batch), sym (append_nil s.ts))
    consume_from-batches left s (timed_out ∷ es) =
        let (calls, rest) = consume_from parse more_than_first empty_batch es in
        let (b, t) = consume_from-batches more_than_first empty_batch es in
        (
          append_assoc s.batch (marked calls) rest.batch ∙ ap (λ l. s.batch ++ l) b,
          append_assoc s.ts (given calls) rest.ts ∙ ap (λ l. s.ts ++ l) t,
        )
    consume_from-batches zero s (message m ∷ es) =
        let (calls, rest) = consume_from parse more_than_first empty_batch es in
        let (b, t) = consume_from-batches more_than_first empty_batch es in
        let s' = add_to parse (parse m) m s in
        (
          append_assoc s'.batch (marked calls) rest.batch
              ∙ ap (λ l. s'.batch ++ l) b
              ∙ add_batch (parse m) m s (with_good_twice (received es)),
          append_assoc s'.ts (given calls) rest.ts
              ∙ ap (λ l. s'.ts ++ l) t
              ∙ add_ts (parse m) m s (parsed (received es)),
        )
    consume_from-batches (suc left) s (message m ∷ es) =
        let s' = add_to parse (parse m) m s in
        let (b, t) = consume_from-batches left s' es in
        (
          b ∙ add_batch (parse m) m s (with_good_twice (received es)),
          t ∙ add_ts (parse m) m s (parsed (received es)),
        )

    -- Whatever the times at which messages arrive: what was marked, followed by the batch that was not
    -- handed over, is every message received in its order, a good one twice in a row and a bad one
    -- once; and the values that were handed over, followed by those that were not, are the values of
    -- the good messages in their order.
    pub consume_claim-batches :
        (es : List (Event Msg))
        → let (calls, rest) = consume_claim parse es in
          (marked calls ++ rest.batch ≡ with_good_twice (received es))
          × (given calls ++ rest.ts ≡ parsed (received es))
    unfolding consume_claim
    consume_claim-batches es = consume_from-batches more_than_first empty_batch es
