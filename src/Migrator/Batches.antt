-- ===== src/Migrator/Batches.antt =====
-- What a full validation from the target back to the base reports while both tables stand still.
use weishu.Base.{
  ℕ, zero, suc, ◌+◌, ◌<◌, ◌≡◌, refl, ap, sym, ◌∙◌, inl, inr, true, false, not, ◌&&◌, ◌||◌, List, [],
  ◌∷◌, ◌++◌, arith, ◌==◌, length, drop, take, replicate, is_empty, drop-drop, drop-length-take,
  drop-short, length-drop, length-take, take-append-drop, Bool-cases, ltb, ltb→lt,
}
use weishu.Base.Int.{is_positive}
use weishu.Migrator.Table.{Entity, has}
use weishu.Migrator.Events.{InconsistentEvent}
use weishu.Migrator.Mentions.{mentions, AllFrom, mentions-append, AllFrom-append}
use weishu.Migrator.Rounds.{quiet, loop_stop, loop_go}
use weishu.Migrator.Validator.{
  Validator, Next, stop, go, returned, Slices, is_listed, where_in, notify_base_missing,
  target_to_base, loop, validate_target_to_base,
}

module _ {T : Type 0} (E : Entity T) where
  pub has-append : (k : ℕ) (xs ys : List T) → has E k (xs ++ ys) ≡ has E k xs || has E k ys
  has-append k [] ys = refl
  has-append k (x ∷ xs) ys = ground (arith, has-append k xs ys)

  has-where_in :
      (k : ℕ) (ids : List ℕ) (rows : List T)
      → has E k (where_in E ids rows) ≡ has E k rows && is_listed k ids
  has-where_in k ids [] = refl
  has-where_in k ids (x ∷ xs) = elim (Bool-cases (E.id x == k)) [
    | inl here ↦
        let e : E.id x ≡ k = ground arith in
        ground (arith, has-where_in k ids xs, ap (λ j. is_listed j ids) e)
    | inr later ↦ ground (arith, has-where_in k ids xs)
  ]

  mentions-notify :
      (v : Validator) (k : ℕ) (xs : List T)
      → mentions k (notify_base_missing E (λ e. true) v xs) ≡ has E k xs
  mentions-notify v k [] = refl
  mentions-notify v k (x ∷ xs) = ground (arith, mentions-notify v k xs)

  notify-AllFrom :
      (v : Validator) (xs : List T) → AllFrom v.direction (notify_base_missing E (λ e. true) v xs)
  notify-AllFrom v [] = tt
  notify-AllFrom v (x ∷ xs) = (refl, notify-AllFrom v xs)

  has_of_empty : (k : ℕ) (xs : List T) → is_empty xs ≡ true → has E k xs ≡ false
  has_of_empty k [] h = refl
  has_of_empty k (x ∷ xs) h = cc

  module _ (S : Slices E) (v : Validator) (base target : List T) where
    -- The reports of a round name the rows of the batch that the base lacks.
    Names : List T → List InconsistentEvent → Type 0
    Names batch es =
        AllFrom v.direction es × ((k : ℕ) → mentions k es ≡ has E k batch && not (has E k base))

    Names-all :
        (batch : List T)
        → is_empty (where_in E (S.map_ids batch) base) ≡ true
        → Names batch (notify_base_missing E (λ e. true) v batch)
    unfolding Names
    Names-all batch h = (
      notify-AllFrom v batch,
      λ k. ground (
        arith,
        mentions-notify v k batch,
        S.listed-map_ids k batch,
        has-where_in k (S.map_ids batch) base,
        has_of_empty k (where_in E (S.map_ids batch) base) h,
      ),
    )

    Names-diff :
        (batch : List T)
        → Names batch
            (notify_base_missing E (λ e. true) v (S.diff batch (where_in E (S.map_ids batch) base)))
    unfolding Names
    Names-diff batch = (
      notify-AllFrom v _,
      λ k. ground (
        arith,
        mentions-notify v k (S.diff batch (where_in E (S.map_ids batch) base)),
        S.has-diff k batch (where_in E (S.map_ids batch) base),
        S.listed-map_ids k batch,
        has-where_in k (S.map_ids batch) base,
      ),
    )

    -- A round returns with the last batch, or goes on behind a batch that is not empty.
    Ends : ℕ → List T → Next → Type 0
    Ends offset rest stop = drop v.batch_size rest ≡ []
    Ends offset rest (go o) =
        (o ≡ offset + length (take v.batch_size rest)) × (0 < length (take v.batch_size rest))

    empty_length : (xs : List T) → is_empty xs ≡ true → length xs ≡ 0
    empty_length [] h = refl
    empty_length (x ∷ xs) h = cc

    Names-none : (batch : List T) → is_empty batch ≡ true → Names batch []
    unfolding Names
    Names-none batch e = (tt, λ k. ground (arith, has_of_empty k batch e))

    not_empty : (xs : List T) → is_empty xs ≡ false → 0 < length xs
    not_empty [] h = cc
    not_empty (x ∷ xs) h = omega arith

    Round : ℕ → List T → List InconsistentEvent × Next → Type 0
    unfolding Ends
    Round offset rest (es, next) = Names (take v.batch_size rest) es × Ends offset rest next

    round_lem :
        (offset : ℕ) (rest : List T)
        → is_positive v.sleep_interval ≡ false
        → 0 < v.batch_size
        → drop offset target ≡ rest
        → Round offset rest (target_to_base E S v (quiet base target) offset)
    unfolding target_to_base Round
    round_lem offset rest s b d = elim (Bool-cases (is_empty (take v.batch_size rest))) [
      | inl e ↦
          rw (d, e, s)
            (
              Names-none _ e,
              drop-short v.batch_size rest (omega (arith, empty_length (take v.batch_size rest) e)),
            )
      | inr e ↦
          elim (Bool-cases (is_empty (where_in E (S.map_ids (take v.batch_size rest)) base))) [
            | inl f ↦ rw (d, e, f) (Names-all _ f, (refl, not_empty _ e))
            | inr f ↦ elim (Bool-cases (ltb (length (take v.batch_size rest)) v.batch_size)) [
              | inl g ↦
                  rw (d, e, f, g, s) (Names-diff _, drop-short v.batch_size rest (ltb→lt _ _ g))
              | inr g ↦ rw (d, e, f, g) (Names-diff _, (refl, not_empty _ e))
            ]
          ]
    ]

    ends_go :
        (offset : ℕ) (rest : List T) (r : List InconsistentEvent × Next) (o : ℕ)
        → Round offset rest r
        → r.1 ≡ go o
        → (o ≡ offset + length (take v.batch_size rest)) × (0 < length (take v.batch_size rest))
    unfolding Round Ends
    ends_go offset rest (es, stop) o d e = cc
    ends_go offset rest (es, go o') o d e = ground arith

    -- Of the rows from a place on, a run of the loop names those that the base lacks, and returns.
    Runs : ℕ → ℕ → List T → Type 0
    Runs n offset rest =
        (es : List InconsistentEvent) × (loop (target_to_base E S v)
            (replicate n (quiet base target)) offset
          ≡ (es, returned))
        × Names rest es

    has-rest :
        (k : ℕ) (rest : List T)
        → has E k rest ≡ has E k (take v.batch_size rest) || has E k (drop v.batch_size rest)
    has-rest k rest =
        ap (has E k) (sym (take-append-drop v.batch_size rest))
        ∙ has-append k (take v.batch_size rest) (drop v.batch_size rest)

    Names-last :
        (rest : List T) (es : List InconsistentEvent)
        → Names (take v.batch_size rest) es
        → drop v.batch_size rest ≡ []
        → Names rest es
    unfolding Names
    Names-last rest es (a, m) d = (a, λ k. ground (arith, m k, has-rest k rest, ap (has E k) d))

    Names-append :
        (rest : List T) (es more : List InconsistentEvent)
        → Names (take v.batch_size rest) es
        → Names (drop v.batch_size rest) more
        → Names rest (es ++ more)
    unfolding Names
    Names-append rest es more (a, m) (b, n) = (
      AllFrom-append v.direction es more a b,
      λ k. ground (arith, m k, n k, has-rest k rest, mentions-append k es more),
    )

    next_rest :
        (offset o : ℕ) (rest : List T)
        → drop offset target ≡ rest
        → o ≡ offset + length (take v.batch_size rest)
        → drop o target ≡ drop v.batch_size rest
    next_rest offset o rest d e = rw e (
        sym (drop-drop offset (length (take v.batch_size rest)) target)
        ∙ ap (drop (length (take v.batch_size rest))) d
        ∙ drop-length-take v.batch_size rest)

    length-next :
        (n : ℕ) (rest : List T)
        → length rest < suc n
        → 0 < length (take v.batch_size rest)
        → length (drop v.batch_size rest) < n
    length-next n rest h p =
        omega (arith, length-drop v.batch_size rest, length-take v.batch_size rest)

    step_runs :
        (n offset : ℕ) (rest : List T) (r : List InconsistentEvent × Next)
        → target_to_base E S v (quiet base target) offset ≡ r
        → Round offset rest r
        → ((o : ℕ) → r.1 ≡ go o → Runs n o (drop v.batch_size rest))
        → Runs (suc n) offset rest
    unfolding Round Runs
    step_runs n offset rest (es, stop) e (m, d) ih = (
      es,
      loop_stop (target_to_base E S v) (quiet base target) _ offset es e,
      Names-last rest es m d,
    )
    step_runs n offset rest (es, go o) e (m, d) ih =
        let (more, l, names) = ih o refl in
        (
          es ++ more,
          loop_go (target_to_base E S v) (quiet base target) _ offset o es more returned e l,
          Names-append rest es more m names,
        )

    runs :
        (n offset : ℕ) (rest : List T)
        → is_positive v.sleep_interval ≡ false
        → 0 < v.batch_size
        → drop offset target ≡ rest
        → length rest < n
        → Runs n offset rest
    runs zero offset rest s b d h = absurd (omega arith)
    runs (suc n) offset rest s b d h =
        let lem = round_lem offset rest s b d in
        step_runs n offset rest (target_to_base E S v (quiet base target) offset) refl lem (λ o e.
          let (at, more) = ends_go offset rest _ o lem e in
          runs n o (drop v.batch_size rest) s b (next_rest offset o rest d at)
            (length-next n rest h more))

    -- Over tables that stand still, with no failing query and batches of at least one row, the
    -- validation from the target back to the base returns after one round more than the target has
    -- rows. Its reports take the validator's side as the base and name exactly the rows that the
    -- target has and the base lacks.
    pub validate_target_to_base_reports :
        (n : ℕ)
        → is_positive v.sleep_interval ≡ false
        → 0 < v.batch_size
        → length target < n
        → let (es, p) = validate_target_to_base E S v (replicate n (quiet base target)) in
          (p ≡ returned)
          × AllFrom v.direction es
          × ((k : ℕ) → mentions k es ≡ has E k target && not (has E k base))
    unfolding validate_target_to_base Runs Names
    validate_target_to_base_reports n s b h =
        let (es, l, (a, m)) = runs n 0 target s b refl h in rw l (refl, a, m)
