-- ===== src/Ranking/Queue.antt =====
-- What webook/internal/service/ranking_service.go uses of ekit's ConcurrentPriorityQueue: its operations,
-- and what their documentation says of them. How often a test holds of what is in the queue stands for
-- the bag of its elements.
use weishu.Base.{
  ℕ, suc, ◌<◌, ◌≤◌, ◌≡◌, Bool, true, Option, none, some, List, [], ◌∷◌, if◌then◌else◌,
}

abbrev pub count : {A : Type 0} → (A → Bool) → List A → ℕ
count p [] = 0
count p (x ∷ xs) = let rest = count p xs in if p x then suc rest else rest

abbrev pub always : {A : Type 0} → A → Bool
always x = true

-- `enqueue` is none for `ErrOutOfCapacity`, and `dequeue` for an empty queue.
pub record Queue (A : Type 0) : Type 1 where
  pub State : Type 0
  pub new : State
  pub enqueue : A → State → Option State
  pub dequeue : State → Option (A × State)
  pub contents : State → List A

-- A queue of the capacity, of which `less` is the comparison.
pub record IsPriorityQueue {A : Type 0} (Q : Queue A) (capacity : ℕ) (less : A → A → Bool)
    : Type 0 where
  pub starts : Q.contents Q.new ≡ []
  pub full : (x : A) (q : Q.State) → Q.enqueue x q ≡ none → capacity ≤ count always (Q.contents q)
  pub room :
      (x : A) (q q' : Q.State)
      → Q.enqueue x q ≡ some q'
      → (count always (Q.contents q) < capacity)
        × ((p : A → Bool) → count p (Q.contents q') ≡ count p (x ∷ Q.contents q))
  pub drained : (q : Q.State) → Q.dequeue q ≡ none → count always (Q.contents q) ≡ 0
  pub least :
      (q q' : Q.State) (x : A)
      → Q.dequeue q ≡ some (x, q')
      → ((p : A → Bool) → count p (Q.contents q) ≡ count p (x ∷ Q.contents q'))
        × (count (λ y. less y x) (Q.contents q') ≡ 0)
