-- ===== src/Migrator/Runs.antt =====
-- The runs of webook/pkg/migrator/scheduler/scheduler.go as they are started and cancelled.
use mathlib.Core.Option.{some-injective}
use mathlib.Core.Path.{subst}
use weishu.Base.{
  sym, inl, inr, Bool-cases, ℕ, ◌+◌, ◌<◌, ◌≡◌, refl, true, false, not, ◌&&◌, Option, none, some,
  List, [], ◌∷◌, ◌++◌, arith, ◌==◌, if◌then◌else◌, length, length-append,
}
use weishu.Migrator.Scheduler.{Run, cancel_run}

abbrev pub All : (Run → Type 0) → List Run → Type 0
All P [] = Unit
All P (r ∷ rs) = P r × All P rs

-- How many validations of a kind are not cancelled.
abbrev pub live_incr : List Run → ℕ
live_incr [] = 0
live_incr (r ∷ rs) = (if r.is_incr && not r.cancelled then 1 else 0) + live_incr rs

abbrev pub live_full : List Run → ℕ
live_full [] = 0
live_full (r ∷ rs) = (if not r.is_incr && not r.cancelled then 1 else 0) + live_full rs

pub All-append :
    (P : Run → Type 0) (rs : List Run) (r : Run) → All P rs → P r → All P (rs ++ r ∷ [])
All-append P [] r a p = (p, tt)
All-append P (x ∷ rs) r a p = (a.0, All-append P rs r a.1 p)

-- A live incremental validation is the one that the cancel function stops.
abbrev pub IsLast : Option ℕ → Run → Type 0
IsLast h r = (r.is_incr && not r.cancelled) ≡ true → h ≡ some r.number

abbrev pub IsBelow : ℕ → Run → Type 0
IsBelow b r = r.number < b

pub cancel-IsLast :
    (h c : Option ℕ) (rs : List Run) → All (IsLast h) rs → All (IsLast h) (cancel_run c rs)
cancel-IsLast h none rs a = a
cancel-IsLast h (some n) [] a = tt
cancel-IsLast h (some n) (r ∷ rs) a = (ground (arith, a.0), cancel-IsLast h (some n) rs a.1)

cancelled-IsLast :
    (n : ℕ) (h : Option ℕ) (r : Run)
    → IsLast (some n) r
    → IsLast h (if r.number == n then record r { cancelled = true } else r)
cancelled-IsLast n h r a = elim (Bool-cases (r.number == n)) [
  | inl e ↦ rw e (ground arith)
  | inr e ↦ rw e (λ q.
      let same : some n ≡ some r.number = a q in
      let same' : n ≡ r.number = some-injective _ _ same in ground arith)
]

pub cancel_run-IsLast :
    (h h' : Option ℕ) (rs : List Run) → All (IsLast h) rs → All (IsLast h') (cancel_run h rs)
cancel_run-IsLast none h' [] a = tt
cancel_run-IsLast none h' (r ∷ rs) a =
    (λ e. let h : none ≡ some r.number = a.0 e in cc, cancel_run-IsLast none h' rs a.1)
cancel_run-IsLast (some n) h' [] a = tt
cancel_run-IsLast (some n) h' (r ∷ rs) a =
    (cancelled-IsLast n h' r a.0, cancel_run-IsLast (some n) h' rs a.1)

cancel-IsBelow :
    (b : ℕ) (c : Option ℕ) (rs : List Run) → All (IsBelow b) rs → All (IsBelow b) (cancel_run c rs)
cancel-IsBelow b none rs a = a
cancel-IsBelow b (some n) [] a = tt
cancel-IsBelow b (some n) (r ∷ rs) a = (ground (arith, a.0), cancel-IsBelow b (some n) rs a.1)

IsBelow-suc : (b : ℕ) (rs : List Run) → All (IsBelow b) rs → All (IsBelow (b + 1)) rs
IsBelow-suc b [] a = tt
IsBelow-suc b (r ∷ rs) a = (omega (arith, a.0), IsBelow-suc b rs a.1)

length-cancel_run : (c : Option ℕ) (rs : List Run) → length (cancel_run c rs) ≡ length rs
length-cancel_run none rs = refl
length-cancel_run (some n) [] = refl
length-cancel_run (some n) (r ∷ rs) = omega (arith, length-cancel_run (some n) rs)

pub live_incr-last : (rs : List Run) → All (IsLast none) rs → live_incr rs ≡ 0
live_incr-last [] a = refl
live_incr-last (r ∷ rs) a = elim (Bool-cases (r.is_incr && not r.cancelled)) [
  | inl e ↦ let h : none ≡ some r.number = a.0 e in cc
  | inr e ↦ rw e (omega (arith, live_incr-last rs a.1))
]

pub live_full-new :
    (n : ℕ) (rs : List Run) (r : Run)
    → All (IsBelow n) rs
    → r.number ≡ n
    → live_full (cancel_run (some n) (rs ++ r ∷ [])) ≡ live_full rs
live_full-new n [] r a e = let at : (r.number == n) ≡ true = ground arith in rw at (ground arith)
live_full-new n (x ∷ rs) r a e =
    let off : (x.number == n) ≡ false = ground arith in
    rw off (omega (arith, live_full-new n rs r a.1 e))

pub append-IsBelow :
    (rs : List Run) (r : Run)
    → All (IsBelow (length rs)) rs
    → r.number ≡ length rs
    → All (IsBelow (length (rs ++ r ∷ []))) (rs ++ r ∷ [])
append-IsBelow rs r a e =
    subst (λ n. All (IsBelow n) (rs ++ r ∷ [])) (sym (length-append rs (r ∷ [])))
      (All-append (IsBelow (length rs + 1)) rs r (IsBelow-suc (length rs) rs a) (omega arith))

pub cancel_run-IsBelow :
    (c : Option ℕ) (rs : List Run)
    → All (IsBelow (length rs)) rs
    → All (IsBelow (length (cancel_run c rs))) (cancel_run c rs)
cancel_run-IsBelow c rs a =
    subst (λ n. All (IsBelow n) (cancel_run c rs)) (sym (length-cancel_run c rs))
      (cancel-IsBelow (length rs) c rs a)

pub cancel-append :
    (c : Option ℕ) (rs : List Run) (r : Run)
    → All (IsLast c) rs
    → All (IsLast (some r.number)) (cancel_run c (rs ++ r ∷ []))
cancel-append none [] r a = (λ e. refl, tt)
cancel-append (some n) [] r a = (ground arith, tt)
cancel-append none (x ∷ rs) r a =
    (λ e. let h : none ≡ some x.number = a.0 e in cc, cancel-append none rs r a.1)
cancel-append (some n) (x ∷ rs) r a =
    (cancelled-IsLast n (some r.number) x a.0, cancel-append (some n) rs r a.1)
