-- ===== src/Ranking/Service.antt =====
-- webook/internal/service/ranking_service.go, `topN`. A score is of any type with
-- its comparison, the deadline a test of an article, and the articles and their likes come from
-- arguments. The loop over batches runs on fuel.
use weishu.Base.{
  ℕ, zero, suc, ◌+◌, Bool, true, false, ◌||◌, Option, none, some, List, [], ◌∷◌, ltb, if◌then◌else◌,
  length, set, replicate, Outcome, returns, panics,
}
use weishu.Base.Int.{ℤ}
use weishu.Ranking.Queue.{Queue}

pub record Score (S A : Type 0) : Type 0 where
  pub score : S
  pub art : A

pub data Answer (E A : Type 0) : Type 0 where
  found : A → Answer E A
  failed : E → Answer E A

pub data Scanned (E Q : Type 0) : Type 0 where
  complete : Q → Scanned E Q
  broken : E → Scanned E Q
  crashed : Scanned E Q
  out_of_fuel : Scanned E Q

-- What the service is made with. `likes` is the map that `GetByIds` returns: an article that is missing
-- there is a nil pointer, whose likes cannot be read.
pub record Sources (E S A : Type 0) : Type 0 where
  pub list_pub : ℕ → ℕ → Answer E (List A)
  pub likes : List A → Answer E (A → Option ℤ)
  pub score_func : ℤ → A → S
  pub before_ddl : A → Bool
  pub batch_size : ℕ

module _ {S A : Type 0} (less : S → S → Bool) (Q : Queue (Score S A)) (zero_ele : Score S A) where
  -- `Dequeue`, whose error is not looked at.
  abbrev pub popped : Option (Score S A × Q.State) → Q.State → Score S A × Q.State
  popped none q = (zero_ele, q)
  popped (some (x, q')) q = (x, q')

  -- The least element goes, and the greater of it and the new one is put in; an error is not looked at.
  abbrev pub put_back : Score S A → Score S A × Q.State → Q.State
  put_back x (min_ele, q') =
      elim (Q.enqueue (if less min_ele.score x.score then x else min_ele) q') [
        | none ↦ q'
        | some q'' ↦ q''
      ]

  abbrev pub enqueued : Score S A → Option Q.State → Q.State → Q.State
  enqueued x (some q') q = q'
  enqueued x none q = put_back x (popped (Q.dequeue q) q)

  -- One article is offered to the queue.
  unfoldable pub offer : Score S A → Q.State → Q.State
  offer x q = enqueued x (Q.enqueue x q) q

  -- The articles of a batch, one after another; none is the panic.
  unfoldable pub offer_batch : (ℤ → A → S) → (A → Option ℤ) → List A → Q.State → Option Q.State
  offer_batch score likes [] q = some q
  offer_batch score likes (art ∷ arts) q = elim (likes art) [
    | none ↦ none
    | some n ↦ offer_batch score likes arts (offer (record { score = score n art; art = art }) q)
  ]

  -- `for i := topN.Len() - 1; i >= 0; i++`, where `left` is how far the index is from the end of `res`:
  -- an index past the end panics.
  unfoldable pub unload : ℕ → ℕ → List A → Q.State → Outcome (List A)
  unload zero i res q = panics
  unload (suc left) i res q =
      let (ele, q') = popped (Q.dequeue q) q in unload left (suc i) (set res i ele.art) q'

  -- What follows the scan; with an empty queue the index starts below zero.
  abbrev pub unloaded : ℕ → Q.State → Outcome (List A)
  unloaded zero q = returns []
  unloaded (suc n) q = unload 1 n (replicate (suc n) zero_ele.art) q

abbrev pub last_is_before : {A : Type 0} → (A → Bool) → List A → Bool
last_is_before p [] = false
last_is_before p (x ∷ []) = p x
last_is_before p (x ∷ y ∷ xs) = last_is_before p (y ∷ xs)

module _ {E S A : Type 0} (less : S → S → Bool) (Q : Queue (Score S A)) (zero_ele : Score S A)
    (src : Sources E S A) where
  abbrev pub is_last_batch : List A → Bool
  is_last_batch arts = ltb (length arts) src.batch_size || last_is_before src.before_ddl arts

  -- The rest of the loop's body, once both calls have returned.
  abbrev pub next : Option Q.State → Bool → (Q.State → Scanned E Q.State) → Scanned E Q.State
  next none last rest = crashed
  next (some q) true rest = complete q
  next (some q) false rest = rest q

  abbrev pub scan_batch :
      List A → Answer E (A → Option ℤ) → Q.State → (Q.State → Scanned E Q.State) → Scanned E Q.State
  scan_batch arts (failed e) q rest = broken e
  scan_batch arts (found likes) q rest =
      next (offer_batch less Q zero_ele src.score_func likes arts q) (is_last_batch arts) rest

  abbrev pub scan_listed :
      Answer E (List A) → Q.State → (ℕ → Q.State → Scanned E Q.State) → Scanned E Q.State
  scan_listed (failed e) q rest = broken e
  scan_listed (found arts) q rest = scan_batch arts (src.likes arts) q (rest (length arts))

  -- The `for` over batches.
  unfoldable pub scan : ℕ → ℕ → Q.State → Scanned E Q.State
  scan zero offset q = out_of_fuel
  scan (suc fuel) offset q =
      scan_listed (src.list_pub offset src.batch_size) q (λ n. scan fuel (offset + n))

  abbrev pub returned : Outcome (List A) → Outcome (Answer E (List A))
  returned panics = panics
  returned (returns res) = returns (found res)

  abbrev pub listed : Scanned E Q.State → Option (Outcome (Answer E (List A)))
  listed (complete q) = some (returned (unloaded less Q zero_ele (length (Q.contents q)) q))
  listed (broken e) = some (returns (failed e))
  listed crashed = some panics
  listed out_of_fuel = none

  -- `topN`: none if the fuel did not last.
  unfoldable pub top_n : ℕ → Option (Outcome (Answer E (List A)))
  top_n fuel = listed (scan fuel 0 Q.new)
