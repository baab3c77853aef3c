-- ===== src/Ranking/Job.antt =====
-- webook/internal/job/ranking.go: the local lock, the distributed lock that the job keeps, and the
-- goroutine that renews it. A mutex that is locked stops whoever locks it again.
use weishu.Base.{ℕ, ◌≡◌, refl, ap, Bool, true, false, Option, none, some, List, [], ◌∷◌}

pub record Job : Type 0 where
  pub local_lock : Bool
  pub lock : Option ℕ

-- What `Run` ends in: it waits for the local lock for ever, it returns nil without the distributed lock,
-- or it goes on to `TopN`.
pub data Ran : Type 0 where
  blocks gives_up runs_top_n : Ran

-- `Run`: the answer of the lock service is the lock's number or none, and is asked only without a lock.
-- Each branch says what it leaves of the local lock.
unfoldable pub run : Option ℕ → Job → Ran × Job
run answer j = elim j.local_lock [
  | true ↦ (blocks, j)
  | false ↦ elim j.lock [
    | some held ↦ (runs_top_n, record j { local_lock = true })
    | none ↦ elim answer [
      | none ↦ (gives_up, record j { local_lock = false })
      | some new ↦ (runs_top_n, record { local_lock = false; lock = some new })
    ]
  ]
]

-- The goroutine, once the renewal fails: it waits like `Run`.
unfoldable pub renewal_fails : Job → Job
renewal_fails j = elim j.local_lock [ true ↦ j | false ↦ record j { lock = none } ]

pub data Closed : Type 0 where
  waits panics_on_nil : Closed
  unlocks : ℕ → Closed

-- `Close`: it reads the lock under the local lock, and unlocks it whether or not it is nil.
unfoldable pub close : Job → Closed
close j = elim j.local_lock [
  | true ↦ waits
  | false ↦ elim j.lock [ none ↦ panics_on_nil | some held ↦ unlocks held ]
]

abbrev pub new_job : Job
new_job = record { local_lock = false; lock = none }

pub data Event : Type 0 where
  runs : Option ℕ → Event
  renewal_failure : Event

abbrev pub after : List Event → Job → Job
after [] j = j
after (runs answer ∷ es) j = after es (run answer j).1
after (renewal_failure ∷ es) j = after es (renewal_fails j)

stays_locked :
    (es : List Event) (held : ℕ)
    → after es (record { local_lock = true; lock = some held })
      ≡ record { local_lock = true; lock = some held }
unfolding run renewal_fails
stays_locked [] held = refl
stays_locked (runs answer ∷ es) held = stays_locked es held
stays_locked (renewal_failure ∷ es) held = stays_locked es held

-- A job that has taken its lock runs once more. From then on, whatever follows, every `Run` and every
-- `Close` waits for ever.
pub third_run_blocks :
    (new : ℕ) (second third : Option ℕ) (es : List Event)
    → let j = (run second (run (some new) new_job).1) in
      (j.0 ≡ runs_top_n) × ((run third (after es j.1)).0 ≡ blocks) × (close (after es j.1) ≡ waits)
unfolding run close
third_run_blocks new second third es =
    let j : Job = record { local_lock = true; lock = some new } in
    let same = stays_locked es new in (refl, ap (λ k. (run third k).0) same, ap close same)
