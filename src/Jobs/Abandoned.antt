-- ===== src/Jobs/Abandoned.antt =====
-- A job whose machine is gone: webook/internal/repository/dao/job.go has no statement that takes it up.
use mathlib.Core.Option.{map}
use mathlib.Core.Path.{subst}
use weishu.Base.{
  ap, ◌∙◌, inl, inr, Bool-cases, Option-cases, replicate, ℕ, suc, ◌+◌, ◌^◌, ◌<◌, ◌≡◌, refl, true,
  some, List, [], ◌∷◌, arith, ◌==◌, get_elem?, length,
}
use weishu.Jobs.Dao.{
  Job, update_rows, any, first_due, is_unchanged, is_waiting, claimed, claim, released, release,
  refreshed, update_utime, postponed, update_next_time,
}
use weishu.Jobs.Workers.{
  Worker, looking, selected, holding, Act, select, preempt, refresh, reset_next_time, cancel_func,
  give_up, act, advance, run,
}
use weishu.Jobs.Table.{find, IsAscending, VersionsBelow, find-update_rows, find_id, any-find}
use weishu.Jobs.Consistency.{
  holds, holders, runs, IsEarlier, AllKnow-get, IsConsistent, holders-set, holders-looking,
}
use weishu.Jobs.Exclusion.{
  advance-IsConsistent, start-IsConsistent, runs_at_most_one, runs-released, runs-refreshed,
  runs-postponed, runs-claimed,
}

module _ {Text : Type 0} where
  holds_none :
      (id k : ℕ) (ws : List (Worker Text)) (w : Worker Text)
      → get_elem? ws k ≡ some w
      → holders id ws ≡ 0
      → holds id w ≡ 0
  holds_none id k ws w g h = omega (arith, holders-set id k ws w looking g)

  waiting_runs : (r : Job Text) → is_waiting r.status ≡ true → runs (some r) ≡ 0
  waiting_runs r h = ground arith

  preempt_other :
      (id now k low b : ℕ) (j : Job Text) (rows : List (Job Text)) (ws : List (Worker Text))
      → get_elem? ws k ≡ some (selected j)
      → IsConsistent low b rows ws
      → runs (find id rows) ≡ 1
      → let (rows', w') = act (preempt now) (selected j) rows in
        (runs (find id rows') ≡ 1) × (holds id w' ≡ 0)
  unfolding act claim
  preempt_other id now k low b j rows ws g inv m =
      let marked : runs (find id (update_rows (claimed j now) rows)) ≡ 1 =
        rw (find-update_rows (claimed j now) id rows (λ r. ground arith)) (
          omega (
            arith,
            runs-claimed now j (find id rows),
            runs_at_most_one (map (claimed j now) (find id rows)),
          )) in
      elim (Bool-cases (any (is_unchanged j) rows)) [
        | inl e ↦
            let (r, found, same) = any-find j low rows inv.0 e in
            let known : IsEarlier j (some r) =
              subst (IsEarlier j) found (AllKnow-get k rows ws (selected j) g inv.2) in
            let waits = known.1 same in
            elim (Bool-cases (j.id == id)) [
              | inl q ↦
                  let there : find id rows ≡ some r =
                    subst (λ i. find i rows ≡ some r) (ground arith) found in
                  absurd (omega (arith, ap runs there, waiting_runs r waits, m))
              | inr q ↦ rw (e, q) (marked, refl)
            ]
        | inr e ↦ rw e (marked, refl)
      ]

  holding_other :
      (a : Act) (id i : ℕ) (rows : List (Job Text))
      → runs (find id rows) ≡ 1
      → holds {Text = Text} id (holding i) ≡ 0
      → let (rows', w') = act a (holding i) rows in (runs (find id rows') ≡ 1) × (holds id w' ≡ 0)
  unfolding act release update_utime update_next_time
  holding_other (select now) id i rows m h = (m, h)
  holding_other (preempt now) id i rows m h = (m, h)
  holding_other (refresh now) id i rows m h = (
    rw (find-update_rows (refreshed i now) id rows (λ r. ground arith))
        (runs-refreshed i now (find id rows) ∙ m),
    h,
  )
  holding_other (reset_next_time now t) id i rows m h = (
    rw (find-update_rows (postponed i now t) id rows (λ r. ground arith))
        (runs-postponed i now t (find id rows) ∙ m),
    h,
  )
  holding_other (cancel_func now) id i rows m h = (
    rw (find-update_rows (released i now) id rows (λ r. ground arith)) (
        omega (
          arith,
          h,
          runs-released i id now (find id rows) (find_id id rows),
          runs_at_most_one (map (released i now) (find id rows)),
        )),
    refl,
  )
  holding_other give_up id i rows m h = (m, refl)

  read_holds :
      (id now : ℕ) (rows : List (Job Text)) → holds id (act (select now) looking rows).1 ≡ 0
  unfolding act
  read_holds id now rows = elim (Option-cases (first_due now rows)) [
    | inl e ↦ rw e refl
    | inr (j, e) ↦ rw e refl
  ]

  act_other :
      (a : Act) (w : Worker Text) (id k low b : ℕ) (rows : List (Job Text))
      (ws : List (Worker Text))
      → get_elem? ws k ≡ some w
      → IsConsistent low b rows ws
      → runs (find id rows) ≡ 1
      → holds id w ≡ 0
      → let (rows', w') = act a w rows in (runs (find id rows') ≡ 1) × (holds id w' ≡ 0)
  unfolding act
  act_other a (holding i) id k low b rows ws g inv m h = holding_other a id i rows m h
  act_other (select now) looking id k low b rows ws g inv m h = (m, read_holds id now rows)
  act_other (preempt now) (selected j) id k low b rows ws g inv m h =
      preempt_other id now k low b j rows ws g inv m
  act_other give_up w id k low b rows ws g inv m h = (m, refl)
  act_other (select now) (selected j) id k low b rows ws g inv m h = (m, refl)
  act_other (preempt now) looking id k low b rows ws g inv m h = (m, refl)
  act_other (refresh now) looking id k low b rows ws g inv m h = (m, refl)
  act_other (refresh now) (selected j) id k low b rows ws g inv m h = (m, refl)
  act_other (reset_next_time now t) looking id k low b rows ws g inv m h = (m, refl)
  act_other (reset_next_time now t) (selected j) id k low b rows ws g inv m h = (m, refl)
  act_other (cancel_func now) looking id k low b rows ws g inv m h = (m, refl)
  act_other (cancel_func now) (selected j) id k low b rows ws g inv m h = (m, refl)

  advance_other :
      (a : Act) (id k low b : ℕ) (rows : List (Job Text)) (ws : List (Worker Text))
      → IsConsistent low b rows ws
      → runs (find id rows) ≡ 1
      → holders id ws ≡ 0
      → let (rows', ws') = advance k a rows ws in (runs (find id rows') ≡ 1) × (holders id ws' ≡ 0)
  unfolding advance
  advance_other a id k low b rows ws inv m h = elim (Option-cases (get_elem? ws k)) [
    | inl e ↦ rw e (m, h)
    | inr (w, e) ↦
        let (rows', w') = act a w rows in
        let (m', h') = act_other a w id k low b rows ws e inv m (holds_none id k ws w e h) in
        rw e (m', omega (arith, holders-set id k ws w w' e, h, h'))
  ]

  run_other :
      (steps : List (ℕ × Act)) (id low b : ℕ) (rows : List (Job Text)) (ws : List (Worker Text))
      → b + length steps < 2 ^ 64
      → IsConsistent low b rows ws
      → runs (find id rows) ≡ 1
      → holders id ws ≡ 0
      → let (rows', ws') = run steps rows ws in (runs (find id rows') ≡ 1) × (holders id ws' ≡ 0)
  unfolding run
  run_other [] id low b rows ws few inv m h = (m, h)
  run_other ((k, a) ∷ steps) id low b rows ws few inv m h =
      let (rows', ws') = advance k a rows ws in
      let inv' = advance-IsConsistent k a low b rows ws (omega arith) inv in
      let (m', h') = advance_other a id k low b rows ws inv m h in
      run_other steps id low (suc b) rows' ws' (omega arith) inv' m' h'

  -- A job that is marked as running when all machines begin anew, as after a crash, stays so: in any
  -- interleaving of any steps, fewer than make a version wrap round, no machine ever runs it.
  pub run_abandoned :
      (steps : List (ℕ × Act)) (n low b id : ℕ) (rows : List (Job Text))
      → IsAscending low rows
      → VersionsBelow b rows
      → b + length steps < 2 ^ 64
      → runs (find id rows) ≡ 1
      → let (rows', ws') = run steps rows (replicate n looking) in
        (runs (find id rows') ≡ 1) × (holders id ws' ≡ 0)
  run_abandoned steps n low b id rows asc v few m =
      run_other steps id low b rows (replicate n looking) few
        (start-IsConsistent n low b rows asc v) m (holders-looking Text n id)
