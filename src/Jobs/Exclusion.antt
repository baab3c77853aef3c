-- ===== src/Jobs/Exclusion.antt =====
-- No two machines run one job: the optimistic lock of webook/internal/repository/dao/job.go.
use mathlib.Core.Option.{map}
use mathlib.Core.Path.{subst}
use weishu.Base.{
  sym, inl, inr, Bool-cases, Option-cases, replicate, ℕ, zero, suc, ◌+◌, ◌^◌, ◌≤◌, ◌<◌, ◌≡◌, refl,
  true, Option, none, some, List, [], ◌∷◌, arith, ◌==◌, if◌then◌else◌, get_elem?, set, length,
}
use weishu.Jobs.Dao.{
  Job, any, first_due, is_unchanged, is_waiting, claimed, claim, released, release, refreshed,
  update_utime, postponed, update_next_time,
}
use weishu.Jobs.Workers.{
  Worker, looking, selected, holding, Act, select, preempt, refresh, reset_next_time, cancel_func,
  give_up, act, advance, run,
}
use weishu.Jobs.Consistency.{
  VersionsBelow-suc, holders-looking, holders, runs, AllKnow, IsEarlier, AllKnow-get, IsConsistent,
  by_no_statement, by_statement, claimed-Keeps, released-Keeps, refreshed-Keeps, postponed-Keeps,
}
use weishu.Jobs.Table.{find, IsAscending, VersionsBelow, find_id, first_due-find, any-find}

module _ {Text : Type 0} where
  pub runs-released :
      (id id' now : ℕ) (o : Option (Job Text))
      → ((r : Job Text) → o ≡ some r → r.id ≡ id')
      → runs o + 0 ≤ runs (map (released id now) o) + (if id == id' then 1 else 0)
  runs-released id id' now none h = ground arith
  runs-released id id' now (some r) h = ground (arith, h r refl)

  pub runs-refreshed :
      (id now : ℕ) (o : Option (Job Text)) → runs (map (refreshed id now) o) ≡ runs o
  runs-refreshed id now none = refl
  runs-refreshed id now (some r) = ground arith

  pub runs-postponed :
      (id now t : ℕ) (o : Option (Job Text)) → runs (map (postponed id now t) o) ≡ runs o
  runs-postponed id now t none = refl
  runs-postponed id now t (some r) = ground arith

  pub runs-claimed :
      (now : ℕ) (j : Job Text) (o : Option (Job Text)) → runs o ≤ runs (map (claimed j now) o)
  runs-claimed now j none = omega arith
  runs-claimed now j (some r) = ground arith

  claimed-runs_one :
      (now : ℕ) (j : Job Text) (o : Option (Job Text)) (r : Job Text)
      → o ≡ some r
      → r.id ≡ j.id
      → r.version ≡ j.version
      → is_waiting r.status ≡ true
      → runs o + 1 ≤ runs (map (claimed j now) o)
  claimed-runs_one now j o r e i v w = rw e (ground arith)

  noop :
      (low b k : ℕ) (rows : List (Job Text)) (ws : List (Worker Text)) (w : Worker Text)
      → get_elem? ws k ≡ some w
      → IsConsistent low b rows ws
      → IsConsistent low (suc b) rows (set ws k w)
  noop low b k rows ws w g (asc, v, know, excl) =
      by_no_statement low b k rows ws w w g (AllKnow-get k rows ws w g know) (λ id. omega arith)
        (asc, v, know, excl)

  forget :
      (low b k : ℕ) (rows : List (Job Text)) (ws : List (Worker Text)) (w : Worker Text)
      → get_elem? ws k ≡ some w
      → IsConsistent low b rows ws
      → IsConsistent low (suc b) rows (set ws k looking)
  forget low b k rows ws w g inv =
      by_no_statement low b k rows ws w looking g tt (λ id. omega arith) inv

  select-IsConsistent :
      (now low b k : ℕ) (rows : List (Job Text)) (ws : List (Worker Text))
      → get_elem? ws k ≡ some looking
      → IsConsistent low b rows ws
      → let (rows', w') = act (select now) looking rows in
        IsConsistent low (suc b) rows' (set ws k w')
  unfolding act
  select-IsConsistent now low b k rows ws g inv = elim (Option-cases (first_due now rows)) [
    | inl e ↦ rw e (noop low b k rows ws looking g inv)
    | inr (j, e) ↦
        let (found, waits) = first_due-find now low rows j inv.0 e in
        rw e (
          by_no_statement low b k rows ws looking (selected j) g
            (subst (IsEarlier j) (sym found) (omega arith, λ q. waits)) (λ id. omega arith) inv)
  ]

  preempt-IsConsistent :
      (now low b k : ℕ) (j : Job Text) (rows : List (Job Text)) (ws : List (Worker Text))
      → suc b < 2 ^ 64
      → get_elem? ws k ≡ some (selected j)
      → IsConsistent low b rows ws
      → let (rows', w') = act (preempt now) (selected j) rows in
        IsConsistent low (suc b) rows' (set ws k w')
  unfolding act claim
  preempt-IsConsistent now low b k j rows ws few g inv =
      elim (Bool-cases (any (is_unchanged j) rows)) [
        | inl e ↦
            let (r, found, same) = any-find j low rows inv.0 e in
            let known : IsEarlier j (some r) =
              subst (IsEarlier j) found (AllKnow-get k rows ws (selected j) g inv.2) in
            rw e (
              by_statement (claimed j now) low b k rows ws (selected j) (holding j.id)
                (λ r. ground arith) (claimed-Keeps b now j few) g tt
                (λ id. elim (Bool-cases (j.id == id)) [
                  | inl q ↦
                      let there : find id rows ≡ some r =
                        subst (λ i. find i rows ≡ some r) (ground arith) found in
                      rw q (
                        omega (
                          arith,
                          claimed-runs_one now j (find id rows) r there (find_id j.id rows r found)
                              same (known.1 same),
                        ))
                  | inr q ↦ rw q (omega (arith, runs-claimed now j (find id rows)))
                ])
                inv)
        | inr e ↦ rw e (
            by_statement (claimed j now) low b k rows ws (selected j) looking (λ r. ground arith)
              (claimed-Keeps b now j few) g tt
              (λ id. omega (arith, runs-claimed now j (find id rows))) inv)
      ]

  holding-IsConsistent :
      (a : Act) (i low b k : ℕ) (rows : List (Job Text)) (ws : List (Worker Text))
      → get_elem? ws k ≡ some (holding i)
      → IsConsistent low b rows ws
      → let (rows', w') = act a (holding i) rows in IsConsistent low (suc b) rows' (set ws k w')
  unfolding act release update_utime update_next_time
  holding-IsConsistent (select now) i low b k rows ws g inv = noop low b k rows ws (holding i) g inv
  holding-IsConsistent (preempt now) i low b k rows ws g inv =
      noop low b k rows ws (holding i) g inv
  holding-IsConsistent (refresh now) i low b k rows ws g inv =
      by_statement (refreshed i now) low b k rows ws (holding i) (holding i) (λ r. ground arith)
        (refreshed-Keeps b i now) g tt (λ id. omega (arith, runs-refreshed i now (find id rows)))
        inv
  holding-IsConsistent (reset_next_time now t) i low b k rows ws g inv =
      by_statement (postponed i now t) low b k rows ws (holding i) (holding i) (λ r. ground arith)
        (postponed-Keeps b i now t) g tt
        (λ id. omega (arith, runs-postponed i now t (find id rows))) inv
  holding-IsConsistent (cancel_func now) i low b k rows ws g inv =
      by_statement (released i now) low b k rows ws (holding i) looking (λ r. ground arith)
        (released-Keeps b i now) g tt
        (λ id. runs-released i id now (find id rows) (find_id id rows)) inv
  holding-IsConsistent give_up i low b k rows ws g inv = forget low b k rows ws (holding i) g inv

  act-IsConsistent :
      (a : Act) (w : Worker Text) (low b k : ℕ) (rows : List (Job Text)) (ws : List (Worker Text))
      → suc b < 2 ^ 64
      → get_elem? ws k ≡ some w
      → IsConsistent low b rows ws
      → let (rows', w') = act a w rows in IsConsistent low (suc b) rows' (set ws k w')
  unfolding act
  act-IsConsistent a (holding i) low b k rows ws few g inv =
      holding-IsConsistent a i low b k rows ws g inv
  act-IsConsistent (select now) looking low b k rows ws few g inv =
      select-IsConsistent now low b k rows ws g inv
  act-IsConsistent (preempt now) (selected j) low b k rows ws few g inv =
      preempt-IsConsistent now low b k j rows ws few g inv
  act-IsConsistent give_up looking low b k rows ws few g inv = forget low b k rows ws looking g inv
  act-IsConsistent give_up (selected j) low b k rows ws few g inv =
      forget low b k rows ws (selected j) g inv
  act-IsConsistent (select now) (selected j) low b k rows ws few g inv =
      noop low b k rows ws (selected j) g inv
  act-IsConsistent (preempt now) looking low b k rows ws few g inv =
      noop low b k rows ws looking g inv
  act-IsConsistent (refresh now) looking low b k rows ws few g inv =
      noop low b k rows ws looking g inv
  act-IsConsistent (refresh now) (selected j) low b k rows ws few g inv =
      noop low b k rows ws (selected j) g inv
  act-IsConsistent (reset_next_time now t) looking low b k rows ws few g inv =
      noop low b k rows ws looking g inv
  act-IsConsistent (reset_next_time now t) (selected j) low b k rows ws few g inv =
      noop low b k rows ws (selected j) g inv
  act-IsConsistent (cancel_func now) looking low b k rows ws few g inv =
      noop low b k rows ws looking g inv
  act-IsConsistent (cancel_func now) (selected j) low b k rows ws few g inv =
      noop low b k rows ws (selected j) g inv

  weaken :
      (low b : ℕ) (rows : List (Job Text)) (ws : List (Worker Text))
      → IsConsistent low b rows ws
      → IsConsistent low (suc b) rows ws
  weaken low b rows ws (asc, v, know, excl) = (asc, VersionsBelow-suc b rows v, know, excl)

  pub advance-IsConsistent :
      (k : ℕ) (a : Act) (low b : ℕ) (rows : List (Job Text)) (ws : List (Worker Text))
      → suc b < 2 ^ 64
      → IsConsistent low b rows ws
      → let (rows', ws') = advance k a rows ws in IsConsistent low (suc b) rows' ws'
  unfolding advance
  advance-IsConsistent k a low b rows ws few inv = elim (Option-cases (get_elem? ws k)) [
    | inl e ↦ rw e (weaken low b rows ws inv)
    | inr (w, e) ↦ rw e (act-IsConsistent a w low b k rows ws few e inv)
  ]

  -- Any steps of any machines, from a state in which table and machines agree, end in such a state.
  run-IsConsistent :
      (steps : List (ℕ × Act)) (low b : ℕ) (rows : List (Job Text)) (ws : List (Worker Text))
      → b + length steps < 2 ^ 64
      → IsConsistent low b rows ws
      → let (rows', ws') = run steps rows ws in IsConsistent low (b + length steps) rows' ws'
  unfolding run
  run-IsConsistent [] low b rows ws few inv =
      subst (λ n. IsConsistent low n rows ws) (omega arith) inv
  run-IsConsistent ((k, a) ∷ steps) low b rows ws few inv =
      let (rows', ws') = advance k a rows ws in
      let inv' = advance-IsConsistent k a low b rows ws (omega arith) inv in
      subst (λ n. let (rows'', ws'') = run steps rows' ws' in IsConsistent low n rows'' ws'')
        (omega arith) (run-IsConsistent steps low (suc b) rows' ws' (omega arith) inv')

  looking_know : (n : ℕ) (rows : List (Job Text)) → AllKnow rows (replicate n looking)
  looking_know zero rows = tt
  looking_know (suc n) rows = (tt, looking_know n rows)

  pub start-IsConsistent :
      (n low b : ℕ) (rows : List (Job Text))
      → IsAscending low rows
      → VersionsBelow b rows
      → IsConsistent low b rows (replicate n looking)
  start-IsConsistent n low b rows asc v =
      (asc, v, looking_know n rows, λ id. omega (arith, holders-looking Text n id))

  pub runs_at_most_one : (o : Option (Job Text)) → runs o ≤ 1
  runs_at_most_one none = omega arith
  runs_at_most_one (some r) = ground arith

  -- Any number of machines that begin by looking for a job, over a table in the order of its ids,
  -- interleaved in any way, with any clocks and any failures, in fewer steps than make a version of
  -- the table wrap round: no job is ever run by two of them, and one that is run is marked as running.
  pub run_exclusive :
      (steps : List (ℕ × Act)) (n low b id : ℕ) (rows : List (Job Text))
      → IsAscending low rows
      → VersionsBelow b rows
      → b + length steps < 2 ^ 64
      → let (rows', ws') = run steps rows (replicate n looking) in
        (holders id ws' ≤ runs (find id rows')) × (holders id ws' ≤ 1)
  run_exclusive steps n low b id rows asc v few =
      let (rows', ws') = run steps rows (replicate n looking) in
      let inv =
        run-IsConsistent steps low b rows (replicate n looking) few
          (start-IsConsistent n low b rows asc v) in
      let marked : holders id ws' ≤ runs (find id rows') = inv.3 id in
      (marked, omega (arith, marked, runs_at_most_one (find id rows')))
