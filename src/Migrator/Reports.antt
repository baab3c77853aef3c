-- ===== src/Migrator/Reports.antt =====
-- What a full validation from the base to the target reports while both tables stand still.
use weishu.Base.{
  ℕ, zero, suc, ◌+◌, ◌<◌, ◌≡◌, refl, ◌⊎◌, inl, inr, true, false, Option, none, some, List, [], ◌∷◌,
  ◌++◌, arith, ◌==◌, if◌then◌else◌, length, drop, get_elem?, replicate, get_elem?-drop_cons,
  get_elem?-drop_nil, Option-cases, Bool-cases,
}
use weishu.Base.Int.{is_positive}
use weishu.Migrator.Table.{Entity, find}
use weishu.Migrator.Events.{target_missing, neq, InconsistentEvent}
use native.Mathlib.Numerals.{add-one}
use weishu.Migrator.Rounds.{quiet, loop_stop, loop_go}
use weishu.Migrator.Mentions.{mentions, AllFrom, mentions-append, AllFrom-append}
use weishu.Migrator.Validator.{
  FromBase, full_from_base, incr_from_base, Validator, returned, stop, go, base_to_target, loop,
  validate_base_to_target,
}

module _ {T : Type 0} (E : Entity T) where
  -- The report on one row of the base, from what the target has under its id.
  abbrev pub report_row : Validator → T → Option T → List InconsistentEvent
  report_row v x none = record { id = E.id x; direction = v.direction; type = target_missing } ∷ []
  report_row v x (some y) =
      if E.compare_to x y
      then []
      else record { id = E.id x; direction = v.direction; type = neq } ∷ []

  abbrev pub report : Validator → List T → List T → List InconsistentEvent
  report v [] target = []
  report v (x ∷ xs) target = report_row v x (find E (E.id x) target) ++ report v xs target

  row_round :
      (v : Validator) (b : FromBase) (base target : List T) (offset : ℕ) (x : T)
      → v.from_base ≡ b
      → get_elem? base offset ≡ some x
      → base_to_target E v (quiet base target) offset
        ≡ (report_row v x (find E (E.id x) target), go (offset + 1))
  unfolding base_to_target
  row_round v full_from_base base target offset x b h =
      elim (Option-cases (find E (E.id x) target)) [
        | inl e ↦ rw (b, h, e)
        | inr (y, e) ↦ rw (b, h, e)
      ]
  row_round v incr_from_base base target offset x b h =
      elim (Option-cases (find E (E.id x) target)) [
        | inl e ↦ rw (b, h, e)
        | inr (y, e) ↦ rw (b, h, e)
      ]

  end_round :
      (v : Validator) (b : FromBase) (base target : List T) (offset : ℕ)
      → v.from_base ≡ b
      → is_positive v.sleep_interval ≡ false
      → get_elem? base offset ≡ none
      → base_to_target E v (quiet base target) offset ≡ ([], stop)
  unfolding base_to_target
  end_round v full_from_base base target offset b s h = rw (b, h, s)
  end_round v incr_from_base base target offset b s h = rw (b, h, s)

  loop-report :
      (v : Validator) (base target rest : List T) (offset n : ℕ)
      → is_positive v.sleep_interval ≡ false
      → drop offset base ≡ rest
      → length rest < n
      → loop (base_to_target E v) (replicate n (quiet base target)) offset
        ≡ (report v rest target, returned)
  loop-report v base target rest offset zero s d h = absurd (omega arith)
  loop-report v base target [] offset (suc n) s d h =
      loop_stop (base_to_target E v) (quiet base target) _ offset []
        (end_round v v.from_base base target offset refl s (get_elem?-drop_nil offset base d))
  loop-report v base target (x ∷ rest) offset (suc n) s d h =
      let (at, after) = get_elem?-drop_cons offset base x rest d in
      loop_go (base_to_target E v) (quiet base target) _ offset (offset + 1) _ _ _
        (row_round v v.from_base base target offset x refl at)
        (loop-report v base target rest (offset + 1) n s (rw add-one after) (omega arith))

  -- Over tables that stand still, with no failing query, the validation from the base to the target
  -- returns after one round more than the base has rows, and reports exactly, in the order of the
  -- base: each row that the target lacks as missing, and each that differs there as unequal.
  pub validate_base_to_target_reports :
      (v : Validator) (base target : List T) (n : ℕ)
      → is_positive v.sleep_interval ≡ false
      → length base < n
      → validate_base_to_target E v (replicate n (quiet base target))
        ≡ (report v base target, returned)
  unfolding validate_base_to_target
  validate_base_to_target_reports v base target n s h = loop-report v base target base 0 n s refl h

  report_row-AllFrom :
      (v : Validator) (x : T) (o : Option T) → AllFrom v.direction (report_row v x o)
  report_row-AllFrom v x none = (refl, tt)
  report_row-AllFrom v x (some y) = ground arith

  pub report-AllFrom :
      (v : Validator) (base target : List T) → AllFrom v.direction (report v base target)
  report-AllFrom v [] target = tt
  report-AllFrom v (x ∷ xs) target =
      AllFrom-append v.direction _ _ (report_row-AllFrom v x (find E (E.id x) target))
        (report-AllFrom v xs target)

  mentions-report_row :
      (v : Validator) (k : ℕ) (x : T) (o : Option T)
      → E.id x ≡ k
      → (mentions k (report_row v x o) ≡ true) ⊎ (o ≡ some x)
  mentions-report_row v k x none e = ground arith
  mentions-report_row v k x (some y) e = ground (arith, E.compare_to_iff x y)

  mentions_here :
      (v : Validator) (k : ℕ) (y x : T) (o : Option T) (more : List InconsistentEvent)
      → E.id y ≡ k
      → y ≡ x
      → (mentions k (report_row v y o ++ more) ≡ true) ⊎ (o ≡ some x)
  mentions_here v k y x o more e f =
      ground (arith, mentions-append k (report_row v y o) more, mentions-report_row v k y o e)

  -- Every row of the base is reported, or the target has the same.
  pub mentions-report :
      (v : Validator) (k : ℕ) (base target : List T) (x : T)
      → find E k base ≡ some x
      → (mentions k (report v base target) ≡ true) ⊎ (find E k target ≡ some x)
  mentions-report v k [] target x h = cc
  mentions-report v k (y ∷ ys) target x h = elim (Bool-cases (E.id y == k)) [
    | inl here ↦
        let e : E.id y ≡ k = ground arith in
        rw (← e) (
          mentions_here v (E.id y) y x (find E (E.id y) target) (report v ys target) refl
            (ground arith))
    | inr later ↦ ground (
      arith,
      mentions-append k (report_row v y (find E (E.id y) target)) (report v ys target),
      mentions-report v k ys target x,
    )
  ]
