-- ===== src/Sms/Rows.antt =====
-- The table of waiting messages under an update of one row.
use mathlib.Core.Option.{some-injective}
use mathlib.Core.Path.{subst}
use weishu.Base.{
  sym, ap, ◌∙◌, inl, inr, Bool-cases, ℕ, suc, ◌+◌, ◌≤◌, ◌<◌, ◌≡◌, refl, true, Option, none, some,
  List, [], ◌∷◌, arith, ◌==◌, if◌then◌else◌,
}
use weishu.Sms.Queue.{AsyncSms, update_where, is_due, first_due}

module _ {Text : Type 0} where
  abbrev pub find : ℕ → List (AsyncSms Text) → Option (AsyncSms Text)
  find id [] = none
  find id (r ∷ rows) = if r.id == id then some r else find id rows

  -- The ids ascend, from `low` on: the primary key.
  abbrev pub IsAscending : ℕ → List (AsyncSms Text) → Type 0
  IsAscending low [] = Unit
  IsAscending low (r ∷ rows) = (low ≤ r.id) × IsAscending (suc r.id) rows

  abbrev pub All : (AsyncSms Text → Type 0) → List (AsyncSms Text) → Type 0
  All P [] = Unit
  All P (r ∷ rows) = P r × All P rows

  abbrev pub sum : (AsyncSms Text → ℕ) → List (AsyncSms Text) → ℕ
  sum f [] = 0
  sum f (r ∷ rows) = f r + sum f rows

  pub find-All :
      (P : AsyncSms Text → Type 0) (id : ℕ) (rows : List (AsyncSms Text)) (r : AsyncSms Text)
      → All P rows
      → find id rows ≡ some r
      → P r
  find-All P id [] r a h = cc
  find-All P id (x ∷ rows) r a h = elim (Bool-cases (x.id == id)) [
    | inl e ↦ subst P (some-injective _ _ (rw e at h)) a.0
    | inr e ↦ find-All P id rows r a.1 (rw e at h)
  ]

  find_low :
      (low id : ℕ) (rows : List (AsyncSms Text)) (f : AsyncSms Text → AsyncSms Text)
      → IsAscending low rows
      → id < low
      → update_where id f rows ≡ rows
  find_low low id [] f a h = refl
  find_low low id (x ∷ rows) f a h = ground (arith, find_low (suc x.id) id rows f a.1)

  -- An update that keeps ids of the one row with an id: the sum over all rows changes by that row.
  pub sum-update_where :
      (g : AsyncSms Text → ℕ) (f : AsyncSms Text → AsyncSms Text) (low id : ℕ)
      (rows : List (AsyncSms Text)) (r : AsyncSms Text)
      → IsAscending low rows
      → find id rows ≡ some r
      → sum g (update_where id f rows) + g r ≡ sum g rows + g (f r)
  sum-update_where g f low id [] r a h = cc
  sum-update_where g f low id (x ∷ rows) r a h = elim (Bool-cases (x.id == id)) [
    | inl e ↦
        let same : x ≡ r = some-injective _ _ (rw e at h) in
        rw (e, find_low (suc x.id) id rows f a.1 (ground arith), same) (omega arith)
    | inr e ↦ rw e (omega (arith, sum-update_where g f (suc x.id) id rows r a.1 (rw e at h)))
  ]

  pub update_where-IsAscending :
      (f : AsyncSms Text → AsyncSms Text) (low id : ℕ) (rows : List (AsyncSms Text))
      → ((r : AsyncSms Text) → (f r).id ≡ r.id)
      → IsAscending low rows
      → IsAscending low (update_where id f rows)
  update_where-IsAscending f low id [] k a = tt
  update_where-IsAscending f low id (x ∷ rows) k a = elim (Bool-cases (x.id == id)) [
    | inl e ↦ rw (e, k x) (a.0, update_where-IsAscending f (suc x.id) id rows k a.1)
    | inr e ↦ rw e (a.0, update_where-IsAscending f (suc x.id) id rows k a.1)
  ]

  find_head :
      (id : ℕ) (r : AsyncSms Text) (rows : List (AsyncSms Text))
      → (r.id == id) ≡ true
      → find id (r ∷ rows) ≡ some r
  find_head id r rows h = rw h

  pub find-update_where :
      (f : AsyncSms Text → AsyncSms Text) (id : ℕ) (rows : List (AsyncSms Text)) (r : AsyncSms Text)
      → ((r : AsyncSms Text) → (f r).id ≡ r.id)
      → find id rows ≡ some r
      → find id (update_where id f rows) ≡ some (f r)
  find-update_where f id [] r k h = cc
  find-update_where f id (x ∷ rows) r k h = elim (Bool-cases (x.id == id)) [
    | inl e ↦
        let same : x ≡ r = some-injective _ _ (rw e at h) in
        rw e (find_head id (f x) (update_where id f rows) (rw (k x) e) ∙ ap (λ y. some (f y)) same)
    | inr e ↦ rw (e, e) (find-update_where f id rows r k (rw e at h))
  ]

  pub All-update_where :
      (P : AsyncSms Text → Type 0) (f : AsyncSms Text → AsyncSms Text) (low id : ℕ)
      (rows : List (AsyncSms Text)) (r : AsyncSms Text)
      → IsAscending low rows
      → find id rows ≡ some r
      → P (f r)
      → All P rows
      → All P (update_where id f rows)
  All-update_where P f low id [] r a h p q = tt
  All-update_where P f low id (x ∷ rows) r a h p q = elim (Bool-cases (x.id == id)) [
    | inl e ↦
        let same : x ≡ r = some-injective _ _ (rw e at h) in
        rw (e, find_low (suc x.id) id rows f a.1 (ground arith))
          (subst (λ y. P (f y)) (sym same) p, q.1)
    | inr e ↦ rw e (q.0, All-update_where P f (suc x.id) id rows r a.1 (rw e at h) p q.1)
  ]

  -- The row that a query finds is the one with its id, and it is due.
  pub first_due-find :
      (now low : ℕ) (rows : List (AsyncSms Text)) (r : AsyncSms Text)
      → IsAscending low rows
      → first_due now rows ≡ some r
      → (find r.id rows ≡ some r) × (is_due now r ≡ true) × (low ≤ r.id)
  first_due-find now low [] r a h = cc
  first_due-find now low (x ∷ rows) r a h = elim (Bool-cases (is_due now x)) [
    | inl e ↦
        let same : x ≡ r = some-injective _ _ (rw e at h) in
        subst (λ y. (find y.id (x ∷ rows) ≡ some y) × (is_due now y ≡ true) × (low ≤ y.id)) same
          (ground arith, e, a.0)
    | inr e ↦
        let (found, due, above) = first_due-find now (suc x.id) rows r a.1 (rw e at h) in
        (ground arith, due, omega arith)
  ]
