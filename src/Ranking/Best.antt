-- ===== src/Ranking/Best.antt =====
-- What the bounded queue of webook/internal/service/ranking_service.go keeps of what it is offered.
use Prim.Native.Nat.{min}
use weishu.Base.{
  ap, ◌∙◌, inl, inr, Bool-cases, Option-cases, ℕ, suc, ◌+◌, ◌≤◌, ◌<◌, ◌≡◌, refl, Bool, true, false,
  some, List, [], ◌∷◌, map, arith, if◌then◌else◌,
}
use weishu.Base.Int.{ℤ}
use weishu.Ranking.Queue.{count, always, Queue, IsPriorityQueue}
use weishu.Ranking.Service.{Score, put_back, offer, offer_batch}

module _ {A : Type 0} where
  count_le : (p : A → Bool) (xs : List A) → count p xs ≤ count always xs
  count_le p [] = omega arith
  count_le p (x ∷ xs) = ground (arith, count_le p xs)

  -- What holds of an element and of all that do not come before it.
  count_all :
      (p q : A → Bool) (xs : List A)
      → ((x : A) → q x ≡ false → p x ≡ true)
      → count q xs ≡ 0
      → count p xs ≡ count always xs
  count_all p q [] h e = refl
  count_all p q (x ∷ xs) h e = elim (Bool-cases (q x)) [
    | inl k ↦ let bad : suc (count q xs) ≡ 0 = rw k at e in absurd (omega arith)
    | inr k ↦
        let e' : count q xs ≡ 0 = rw k at e in
        let yes : p x ≡ true = h x k in rw yes (ap suc (count_all p q xs h e'))
  ]

module _ {S A : Type 0} (less : S → S → Bool) where
  -- A test that holds of whatever is not less than a thing it holds of: a score above a bound, or any.
  abbrev pub IsUpward : (Score S A → Bool) → Type 0
  IsUpward p = (x y : Score S A) → p x ≡ true → less y.score x.score ≡ false → p y ≡ true

  abbrev pub by_score : Score S A → Score S A → Bool
  by_score x y = less x.score y.score

  abbrev pub scored : (ℤ → A → S) → (A → ℤ) → List A → List (Score S A)
  scored score likes arts = map (λ art. record { score = score (likes art) art; art = art }) arts

-- The numbers of `swap_lem`: `pm` and `px` are what the test says of the element that goes and of the new
-- one, and `l` whether the former is less.
swap_numbers :
    (pm px l : Bool) (capacity c c' s s' k n r : ℕ)
    → c ≡ min capacity n
    → capacity ≤ s
    → s ≡ min capacity k
    → s ≡ suc s'
    → c' ≤ s'
    → c ≡ (if pm then suc c' else c')
    → r ≡ (if (if l then px else pm) then suc c' else c')
    → (pm ≡ true → c' ≡ s')
    → (pm ≡ true → l ≡ true → px ≡ true)
    → (px ≡ true → l ≡ false → pm ≡ true)
    → r ≡ min capacity (if px then suc n else n)
swap_numbers true true true capacity c c' s s' k n r h full size e few one put all f g =
    omega (arith, all refl)
swap_numbers true true false capacity c c' s s' k n r h full size e few one put all f g =
    omega (arith, all refl)
swap_numbers true false true capacity c c' s s' k n r h full size e few one put all f g =
    let bad : false ≡ true = f refl refl in ground arith
swap_numbers true false false capacity c c' s s' k n r h full size e few one put all f g =
    omega (arith, all refl)
swap_numbers false true true capacity c c' s s' k n r h full size e few one put all f g =
    omega arith
swap_numbers false true false capacity c c' s s' k n r h full size e few one put all f g =
    let bad : false ≡ true = g refl refl in ground arith
swap_numbers false false true capacity c c' s s' k n r h full size e few one put all f g =
    omega arith
swap_numbers false false false capacity c c' s s' k n r h full size e few one put all f g =
    omega arith

pick_lem :
    {A : Type 0} (p : A → Bool) (l : Bool) (x m : A)
    → p (if l then x else m) ≡ (if l then p x else p m)
pick_lem p true x m = refl
pick_lem p false x m = refl

module _ {S A : Type 0} (less : S → S → Bool) (Q : Queue (Score S A)) (zero_ele : Score S A)
    (capacity : ℕ) (is_queue : IsPriorityQueue Q capacity (by_score less)) where
  put_back_lem :
      (p : Score S A → Bool) (x m : Score S A) (q : Q.State)
      → count always (Q.contents q) < capacity
      → count p (Q.contents (put_back less Q zero_ele x (m, q)))
        ≡ count p ((if less m.score x.score then x else m) ∷ Q.contents q)
  put_back_lem p x m q h =
      elim (Option-cases (Q.enqueue (if less m.score x.score then x else m) q)) [
        | inl e ↦ let full = is_queue.full _ q e in absurd (omega (arith, h, full))
        | inr (q', e) ↦ let (room, same) = is_queue.room _ q q' e in rw (e, put_back) (same p)
      ]

  -- The element goes that nothing in the queue is less than, and the greater of it and the new one comes.
  swap_lem :
      ((x y : S) → less x y ≡ true → less y x ≡ false)
      → (p : Score S A → Bool) → IsUpward less p
      → (x m : Score S A) (q q' : Q.State) (n k : ℕ) → count p (Q.contents q) ≡ min capacity n
      → capacity ≤ count always (Q.contents q)
      → count always (Q.contents q) ≡ min capacity k
      → Q.dequeue q ≡ some (m, q')
      → count p (Q.contents (put_back less Q zero_ele x (m, q')))
        ≡ min capacity (if p x then suc n else n)
  swap_lem asym p up x m q q' n k kept full size out =
      let (same, least) = is_queue.least q q' m out in
      let size' : count always (Q.contents q) ≡ suc (count always (Q.contents q')) = same always in
      let put = put_back_lem p x m q' (omega (arith, full, size, size')) in
      let l = less m.score x.score in
      swap_numbers (p m) (p x) l capacity (count p (Q.contents q)) (count p (Q.contents q'))
        (count always (Q.contents q)) (count always (Q.contents q')) k n _ kept full size size'
        (count_le p (Q.contents q')) (same p)
        (put
          ∙ ap (λ b. if b then suc (count p (Q.contents q')) else count p (Q.contents q'))
              (pick_lem p l x m))
        (λ t. count_all p (λ y. by_score less y m) (Q.contents q') (λ y h. up m y t h) least)
        (λ t w. up m x t (asym m.score x.score w)) (λ t w. up x m t w)

  -- Of the things seen for which an upward test holds, the queue has as many as its capacity allows.
  abbrev pub Keeps : List (Score S A) → Q.State → Type 0
  Keeps seen q =
      (p : Score S A → Bool)
      → IsUpward less p
      → count p (Q.contents q) ≡ min capacity (count p seen)

  pub Keeps-new : Keeps [] Q.new
  Keeps-new p up = rw (is_queue.starts) (omega arith)

  always_up : IsUpward {A = A} less always
  always_up x y h k = refl

  Keeps-offer :
      ((x y : S) → less x y ≡ true → less y x ≡ false)
      → 1 ≤ capacity
      → (x : Score S A) (seen : List (Score S A)) (q : Q.State) → Keeps seen q
      → Keeps (x ∷ seen) (offer less Q zero_ele x q)
  unfolding offer
  Keeps-offer asym some_room x seen q keeps p up = elim (Option-cases (Q.enqueue x q)) [
    | inr (q', e) ↦
        let (room, same) = is_queue.room x q q' e in
        let size = keeps always always_up in
        let few = count_le p seen in rw (e, same p) (ground (arith, keeps p up))
    | inl e ↦
        let full = is_queue.full x q e in
        elim (Option-cases (Q.dequeue q)) [
          | inl d ↦ let empty = is_queue.drained q d in absurd (omega arith)
          | inr ((m, q'), d) ↦
              rw (e, d)
                (swap_lem asym p up x m q q' (count p seen) (count always seen) (keeps p up) full
                  (keeps always always_up) d)
        ]
  ]

  -- The things seen once a batch has been offered.
  abbrev pub offered : (ℤ → A → S) → (A → ℤ) → List A → List (Score S A) → List (Score S A)
  offered score likes [] seen = seen
  offered score likes (art ∷ arts) seen =
      offered score likes arts (record { score = score (likes art) art; art = art } ∷ seen)

  pub Keeps-offer_batch :
      ((x y : S) → less x y ≡ true → less y x ≡ false)
      → 1 ≤ capacity
      → (score : ℤ → A → S) (likes : A → ℤ) (arts : List A) (seen : List (Score S A)) (q : Q.State)
      → Keeps seen q
      → (q' : Q.State) × (offer_batch less Q zero_ele score (λ a. some (likes a)) arts q ≡ some q')
        × Keeps (offered score likes arts seen) q'
  unfolding offer_batch
  Keeps-offer_batch asym room score likes [] seen q keeps = (q, refl, keeps)
  Keeps-offer_batch asym room score likes (art ∷ arts) seen q keeps =
      Keeps-offer_batch asym room score likes arts _ _ (Keeps-offer asym room _ seen q keeps)

  pub count-offered :
      (p : Score S A → Bool) (score : ℤ → A → S) (likes : A → ℤ) (arts : List A)
      (seen : List (Score S A))
      → count p (offered score likes arts seen)
        ≡ count p (scored less score likes arts) + count p seen
  count-offered p score likes [] seen = omega arith
  count-offered p score likes (art ∷ arts) seen =
      let rest =
        count-offered p score likes arts
          (record { score = score (likes art) art; art = art } ∷ seen) in
      ground (arith, rest)
