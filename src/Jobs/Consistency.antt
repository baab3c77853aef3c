-- ===== src/Jobs/Consistency.antt =====
-- When the table of webook/internal/repository/dao/job.go and what the machines know of it agree.
use native.Mathlib.Nat.{mod-eq_of_lt}
use mathlib.Core.Option.{map, some-injective}
use mathlib.Core.Path.{subst}
use weishu.Base.{
  sym, inl, inr, Bool-cases, replicate, ℕ, zero, suc, ◌+◌, ◌%◌, ◌^◌, ◌≤◌, ◌<◌, ◌≡◌, refl, true,
  Option, none, some, List, [], ◌∷◌, arith, ◌==◌, if◌then◌else◌, get_elem?, set,
}
use weishu.Jobs.Dao.{
  Job, update_rows, is_unchanged, is_waiting, is_running, claimed, released, refreshed, postponed,
}
use weishu.Jobs.Workers.{Worker, looking, selected, holding}
use weishu.Jobs.Table.{
  find, IsAscending, VersionsBelow, KeepsIds, update_rows-IsAscending, find-update_rows,
  find-VersionsBelow, update_rows-VersionsBelow,
}

module _ {Text : Type 0} where
  abbrev pub holds : ℕ → Worker Text → ℕ
  holds id (holding i) = if i == id then 1 else 0
  holds id w = 0

  -- How many machines run the job with an id.
  abbrev pub holders : ℕ → List (Worker Text) → ℕ
  holders id [] = 0
  holders id (w ∷ ws) = holds id w + holders id ws

  -- Whether the table has the job as running.
  abbrev pub runs : Option (Job Text) → ℕ
  runs none = 0
  runs (some r) = if is_running r.status then 1 else 0

  pub holders-set :
      (id k : ℕ) (ws : List (Worker Text)) (w w' : Worker Text)
      → get_elem? ws k ≡ some w
      → holders id (set ws k w') + holds id w ≡ holders id ws + holds id w'
  holders-set id k [] w w' h = cc
  holders-set id zero (x ∷ ws) w w' h = rw (some-injective _ _ h) (omega arith)
  holders-set id (suc k) (x ∷ ws) w w' h = omega (arith, holders-set id k ws w w' h)

  -- A row that a machine has read is an earlier version of the one in the table, or that one still
  -- waits.
  abbrev pub IsEarlier : Job Text → Option (Job Text) → Type 0
  IsEarlier j none = ⊥
  IsEarlier j (some r) =
      (j.version ≤ r.version) × (r.version ≡ j.version → is_waiting r.status ≡ true)

  abbrev pub Knows : List (Job Text) → Worker Text → Type 0
  Knows rows (selected j) = IsEarlier j (find j.id rows)
  Knows rows w = Unit

  abbrev pub AllKnow : List (Job Text) → List (Worker Text) → Type 0
  AllKnow rows [] = Unit
  AllKnow rows (w ∷ ws) = Knows rows w × AllKnow rows ws

  pub AllKnow-get :
      (k : ℕ) (rows : List (Job Text)) (ws : List (Worker Text)) (w : Worker Text)
      → get_elem? ws k ≡ some w
      → AllKnow rows ws
      → Knows rows w
  AllKnow-get k rows [] w h a = cc
  AllKnow-get zero rows (x ∷ ws) w h a = subst (Knows rows) (some-injective _ _ h) a.0
  AllKnow-get (suc k) rows (x ∷ ws) w h a = AllKnow-get k rows ws w h a.1

  AllKnow-set :
      (k : ℕ) (rows : List (Job Text)) (ws : List (Worker Text)) (w' : Worker Text)
      → AllKnow rows ws
      → Knows rows w'
      → AllKnow rows (set ws k w')
  AllKnow-set k rows [] w' a h = tt
  AllKnow-set zero rows (x ∷ ws) w' a h = (h, a.1)
  AllKnow-set (suc k) rows (x ∷ ws) w' a h = (a.0, AllKnow-set k rows ws w' a.1 h)

  -- What every statement does to a row of a version below `b`.
  abbrev pub Keeps : ℕ → (Job Text → Job Text) → Type 0
  Keeps b f =
      (r : Job Text)
      → r.version < b
      → (r.version ≤ (f r).version)
        × ((f r).version < suc b)
        × ((f r).version ≡ r.version → is_waiting r.status ≡ true → is_waiting (f r).status ≡ true)

  IsEarlier-map :
      (b : ℕ) (f : Job Text → Job Text) (j : Job Text) (o : Option (Job Text))
      → ((r : Job Text) → o ≡ some r → r.version < b)
      → Keeps b f
      → IsEarlier j o
      → IsEarlier j (map f o)
  IsEarlier-map b f j none v k h = h
  IsEarlier-map b f j (some r) v k (le, w) =
      let (up, below, keep) = k r (v r refl) in
      (omega arith, λ e. keep (omega arith) (w (omega arith)))

  AllKnow-update_rows :
      (b : ℕ) (f : Job Text → Job Text) (rows : List (Job Text)) (ws : List (Worker Text))
      → KeepsIds f
      → Keeps b f
      → VersionsBelow b rows
      → AllKnow rows ws
      → AllKnow (update_rows f rows) ws
  AllKnow-update_rows b f rows [] i k v a = tt
  AllKnow-update_rows b f rows (looking ∷ ws) i k v a =
      (tt, AllKnow-update_rows b f rows ws i k v a.1)
  AllKnow-update_rows b f rows (holding id ∷ ws) i k v a =
      (tt, AllKnow-update_rows b f rows ws i k v a.1)
  AllKnow-update_rows b f rows (selected j ∷ ws) i k v a = (
    subst (IsEarlier j) (sym (find-update_rows f j.id rows i))
        (IsEarlier-map b f j (find j.id rows) (λ r. find-VersionsBelow b j.id rows r v) k a.0),
    AllKnow-update_rows b f rows ws i k v a.1,
  )

  pub claimed-Keeps : (b now : ℕ) (j : Job Text) → suc b < 2 ^ 64 → Keeps b (claimed j now)
  claimed-Keeps b now j h r v = elim (Bool-cases (is_unchanged j r)) [
    | inl e ↦
        let same : r.version ≡ j.version = ground arith in
        let next : (j.version + 1) % 2 ^ 64 ≡ j.version + 1 = mod-eq_of_lt (omega arith) in
        rw e (omega (arith, next), omega (arith, next), λ q w. absurd (omega (arith, next, q)))
    | inr e ↦ rw e (omega arith, omega arith, λ q w. w)
  ]

  pub released-Keeps : (b id now : ℕ) → Keeps b (released id now)
  released-Keeps b id now r v = ground arith

  pub refreshed-Keeps : (b id now : ℕ) → Keeps b (refreshed id now)
  refreshed-Keeps b id now r v = ground arith

  pub postponed-Keeps : (b id now t : ℕ) → Keeps b (postponed id now t)
  postponed-Keeps b id now t r v = ground arith

  -- The ids ascend, versions are below `b`, what a machine has read is out of date or still true, and
  -- every job that a machine runs is marked as running, by one machine only.
  abbrev pub IsConsistent : ℕ → ℕ → List (Job Text) → List (Worker Text) → Type 0
  IsConsistent low b rows ws =
      IsAscending low rows
      × VersionsBelow b rows
      × AllKnow rows ws
      × ((id : ℕ) → holders id ws ≤ runs (find id rows))

  pub VersionsBelow-suc :
      (b : ℕ) (rows : List (Job Text)) → VersionsBelow b rows → VersionsBelow (suc b) rows
  VersionsBelow-suc b [] v = tt
  VersionsBelow-suc b (r ∷ rows) v = (omega (arith, v.0), VersionsBelow-suc b rows v.1)

  pub by_no_statement :
      (low b k : ℕ) (rows : List (Job Text)) (ws : List (Worker Text)) (w w' : Worker Text)
      → get_elem? ws k ≡ some w
      → Knows rows w'
      → ((id : ℕ) → holds id w' ≤ holds id w)
      → IsConsistent low b rows ws
      → IsConsistent low (suc b) rows (set ws k w')
  by_no_statement low b k rows ws w w' g h le (asc, v, know, excl) = (
    asc,
    VersionsBelow-suc b rows v,
    AllKnow-set k rows ws w' know h,
    λ id. omega (arith, holders-set id k ws w w' g, le id, excl id),
  )

  pub by_statement :
      (f : Job Text → Job Text) (low b k : ℕ) (rows : List (Job Text)) (ws : List (Worker Text))
      (w w' : Worker Text)
      → KeepsIds f
      → Keeps b f
      → get_elem? ws k ≡ some w
      → Knows (update_rows f rows) w'
      → ((id : ℕ) → runs (find id rows) + holds id w' ≤ runs (map f (find id rows)) + holds id w)
      → IsConsistent low b rows ws
      → IsConsistent low (suc b) (update_rows f rows) (set ws k w')
  by_statement f low b k rows ws w w' ids keeps g h le (asc, v, know, excl) = (
    update_rows-IsAscending f low rows ids asc,
    update_rows-VersionsBelow f b rows (λ r lt. (keeps r lt).1) v,
    AllKnow-set k (update_rows f rows) ws w' (AllKnow-update_rows b f rows ws ids keeps v know) h,
    λ id.
        rw (find-update_rows f id rows ids)
          (omega (arith, holders-set id k ws w w' g, le id, excl id)),
  )

pub holders-looking :
    (Text : Type 0) (n id : ℕ) → holders {Text = Text} id (replicate n looking) ≡ 0
holders-looking Text zero id = refl
holders-looking Text (suc n) id = omega (arith, holders-looking Text n id)
