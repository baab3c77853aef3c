-- ===== src/Jobs/Table.antt =====
-- The table of jobs under the statements of webook/internal/repository/dao/job.go.
use mathlib.Core.Option.{map, some-injective}
use mathlib.Core.Path.{subst}
use weishu.Base.{
  inl, inr, Bool-cases, ℕ, suc, ◌≤◌, ◌<◌, ◌≡◌, refl, true, false, Option, none, some, List, [], ◌∷◌,
  arith, ◌==◌, if◌then◌else◌,
}
use weishu.Jobs.Dao.{Job, update_rows, any, is_due, first_due, is_unchanged, is_waiting}

module _ {Text : Type 0} where
  abbrev pub find : ℕ → List (Job Text) → Option (Job Text)
  find id [] = none
  find id (r ∷ rows) = if r.id == id then some r else find id rows

  -- The ids ascend, from `low` on: the primary key.
  abbrev pub IsAscending : ℕ → List (Job Text) → Type 0
  IsAscending low [] = Unit
  IsAscending low (r ∷ rows) = (low ≤ r.id) × IsAscending (suc r.id) rows

  abbrev pub VersionsBelow : ℕ → List (Job Text) → Type 0
  VersionsBelow b [] = Unit
  VersionsBelow b (r ∷ rows) = (r.version < b) × VersionsBelow b rows

  abbrev pub KeepsIds : (Job Text → Job Text) → Type 0
  KeepsIds f = (r : Job Text) → (f r).id ≡ r.id

  pub update_rows-IsAscending :
      (f : Job Text → Job Text) (low : ℕ) (rows : List (Job Text))
      → KeepsIds f
      → IsAscending low rows
      → IsAscending low (update_rows f rows)
  update_rows-IsAscending f low [] k a = tt
  update_rows-IsAscending f low (r ∷ rows) k a =
      rw (k r) (a.0, update_rows-IsAscending f (suc r.id) rows k a.1)

  pub find-update_rows :
      (f : Job Text → Job Text) (id : ℕ) (rows : List (Job Text))
      → KeepsIds f
      → find id (update_rows f rows) ≡ map f (find id rows)
  find-update_rows f id [] k = refl
  find-update_rows f id (r ∷ rows) k = elim (Bool-cases (r.id == id)) [
    | inl e ↦ let e' : ((f r).id == id) ≡ true = rw (k r) e in rw (e, e')
    | inr e ↦
        let e' : ((f r).id == id) ≡ false = rw (k r) e in rw (e, e') (find-update_rows f id rows k)
  ]

  pub find_id : (id : ℕ) (rows : List (Job Text)) (r : Job Text) → find id rows ≡ some r → r.id ≡ id
  find_id id [] r h = cc
  find_id id (x ∷ rows) r h = elim (Bool-cases (x.id == id)) [
    | inl e ↦ subst (λ y. y.id ≡ id) (some-injective _ _ (rw e at h)) (ground arith)
    | inr e ↦ find_id id rows r (rw e at h)
  ]

  find_low :
      (low id : ℕ) (rows : List (Job Text)) (r : Job Text)
      → IsAscending low rows
      → find id rows ≡ some r
      → low ≤ id
  find_low low id [] r a h = cc
  find_low low id (x ∷ rows) r a h = elim (Bool-cases (x.id == id)) [
    | inl e ↦ ground arith
    | inr e ↦ omega (arith, find_low (suc x.id) id rows r a.1 (rw e at h), a.0)
  ]

  -- The row that a query finds is the one with its id, and it waits.
  pub first_due-find :
      (now low : ℕ) (rows : List (Job Text)) (r : Job Text)
      → IsAscending low rows
      → first_due now rows ≡ some r
      → (find r.id rows ≡ some r) × (is_waiting r.status ≡ true)
  first_due-find now low [] r a h = cc
  first_due-find now low (x ∷ rows) r a h = elim (Bool-cases (is_due now x)) [
    | inl e ↦
        subst (λ y. (find y.id (x ∷ rows) ≡ some y) × (is_waiting y.status ≡ true))
          (some-injective _ _ (rw e at h)) (ground arith, ground arith)
    | inr e ↦
        let (found, due) = first_due-find now (suc x.id) rows r a.1 (rw e at h) in
        let above = find_low (suc x.id) r.id rows r a.1 found in (ground arith, due)
  ]

  -- An optimistic lock matches the row with its id, or none.
  pub any-find :
      (j : Job Text) (low : ℕ) (rows : List (Job Text))
      → IsAscending low rows
      → any (is_unchanged j) rows ≡ true
      → (r : Job Text) × (find j.id rows ≡ some r) × (r.version ≡ j.version)
  any-find j low [] a h = cc
  any-find j low (x ∷ rows) a h = elim (Bool-cases (is_unchanged j x)) [
    | inl e ↦ (x, ground arith, ground arith)
    | inr e ↦
        let (r, found, same) = any-find j (suc x.id) rows a.1 (rw e at h) in
        let above = find_low (suc x.id) j.id rows r a.1 found in (r, ground arith, same)
  ]

  pub find-VersionsBelow :
      (b id : ℕ) (rows : List (Job Text)) (r : Job Text)
      → VersionsBelow b rows
      → find id rows ≡ some r
      → r.version < b
  find-VersionsBelow b id [] r v h = cc
  find-VersionsBelow b id (x ∷ rows) r v h = elim (Bool-cases (x.id == id)) [
    | inl e ↦ subst (λ y. y.version < b) (some-injective _ _ (rw e at h)) v.0
    | inr e ↦ find-VersionsBelow b id rows r v.1 (rw e at h)
  ]

  pub update_rows-VersionsBelow :
      (f : Job Text → Job Text) (b : ℕ) (rows : List (Job Text))
      → ((r : Job Text) → r.version < b → (f r).version < suc b)
      → VersionsBelow b rows
      → VersionsBelow (suc b) (update_rows f rows)
  update_rows-VersionsBelow f b [] k v = tt
  update_rows-VersionsBelow f b (r ∷ rows) k v = (k r v.0, update_rows-VersionsBelow f b rows k v.1)
