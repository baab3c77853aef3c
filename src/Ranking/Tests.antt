-- ===== src/Ranking/Tests.antt =====
-- A queue of two places, small lists of articles, and the theorems there. An article is a number, which
-- is its likes and its score.
use Prim.Native.Nat.{min}
use mathlib.Core.Path.{subst}
use mathlib.Core.Option.{some-injective}
use weishu.Base.{
  ap, sym, inl, inr, Bool-cases, ℕ, suc, ◌≤◌, ◌≡◌, ◌⊎◌, refl, Bool, true, false, Option, none, some,
  List, [], ◌∷◌, arith, ltb, ◌==◌, if◌then◌else◌, take, drop, panics,
}
use weishu.Base.Int.{pos, negsuc}
use weishu.Ranking.Queue.{count, always, Queue, IsPriorityQueue}
use weishu.Ranking.Service.{
  Score, Sources, found, complete, last_is_before, scan, offer_batch, offer, top_n,
}
use weishu.Ranking.Best.{by_score, scored}
use weishu.Ranking.Ends.{scan_keeps_best, top_n_panics}
use weishu.Ranking.Cache.{Json, Store}
use weishu.Ranking.Job.{
  runs_top_n, blocks, waits, new_job, run, close, after, runs, renewal_failure, third_run_blocks,
}

abbrev Element : Type 0
Element = Score ℕ ℕ

abbrev extract : Element → List Element → Element × List Element
extract x [] = (x, [])
extract x (y ∷ ys) =
    let (m, rest) = extract y ys in if ltb m.score x.score then (m, x ∷ rest) else (x, m ∷ rest)

abbrev extracted : List Element → Option (Element × List Element)
extracted [] = none
extracted (x ∷ xs) = some (extract x xs)

abbrev two_places : Queue Element
two_places = record {
  State = List Element;
  new = [];
  enqueue = λ x q. if ltb (count always q) 2 then some (x ∷ q) else none;
  dequeue = extracted;
  contents = λ q. q;
}

count-extract :
    (p : Element → Bool) (x : Element) (xs : List Element)
    → let (m, rest) = extract x xs in count p (x ∷ xs) ≡ count p (m ∷ rest)
count-extract p x [] = refl
count-extract p x (y ∷ ys) =
    let (m, rest) = extract y ys in
    let same : count p (y ∷ ys) ≡ count p (m ∷ rest) = count-extract p y ys in
    elim (Bool-cases (ltb m.score x.score)) [
      | inl e ↦ rw e (ground (arith, same))
      | inr e ↦ rw e (ground (arith, same))
    ]

none_less :
    (m x : Element) (xs : List Element)
    → ltb m.score x.score ≡ false
    → count (λ y. ltb y.score m.score) xs ≡ 0
    → count (λ y. ltb y.score x.score) xs ≡ 0
none_less m x [] h k = refl
none_less m x (y ∷ ys) h k = elim (Bool-cases (ltb y.score m.score)) [
  | inl e ↦
      let bad : suc (count (λ z. ltb z.score m.score) ys) ≡ 0 = rw e at k in absurd (omega arith)
  | inr e ↦
      let rest : count (λ z. ltb z.score m.score) ys ≡ 0 = rw e at k in
      let out : ltb y.score x.score ≡ false = ground (arith, h, e) in
      rw out (none_less m x ys h rest)
]

least-extract :
    (x : Element) (xs : List Element)
    → let (m, rest) = extract x xs in count (λ y. by_score ltb y m) rest ≡ 0
least-extract x [] = refl
least-extract x (y ∷ ys) =
    let (m, rest) = extract y ys in
    let least : count (λ z. ltb z.score m.score) rest ≡ 0 = least-extract y ys in
    elim (Bool-cases (ltb m.score x.score)) [
      | inl e ↦ let out : ltb x.score m.score ≡ false = ground (arith, e) in rw (e, out) least
      | inr e ↦ rw (e, e) (none_less m x rest e least)
    ]

drained_lem : (q : List Element) → extracted q ≡ none → count always q ≡ 0
drained_lem [] h = refl
drained_lem (x ∷ xs) h = ground arith

least_lem :
    (q q' : List Element) (x : Element)
    → extracted q ≡ some (x, q')
    → ((p : Element → Bool) → count p q ≡ count p (x ∷ q')) × (count (λ y. by_score ltb y x) q' ≡ 0)
least_lem [] q' x h = ground arith
least_lem (y ∷ ys) q' x h =
    let e = some-injective _ _ h in
    subst
      (λ o.
        ((p : Element → Bool) → count p (y ∷ ys) ≡ count p (o.0 ∷ o.1))
        × (count (λ z. by_score ltb z o.0) o.1 ≡ 0))
      e (λ p. count-extract p y ys, least-extract y ys)

two_places-IsPriorityQueue : IsPriorityQueue two_places 2 (by_score ltb)
two_places-IsPriorityQueue = record {
  starts = refl;
  full = λ x q h. elim (Bool-cases (ltb (count always q) 2)) [
    | inl e ↦ let bad : some (x ∷ q) ≡ none = rw e at h in ground arith
    | inr e ↦ ground (arith, e)
  ];
  room = λ x q q' h. elim (Bool-cases (ltb (count always q) 2)) [
    | inl e ↦
        let h' : some (x ∷ q) ≡ some q' = rw e at h in
        (ground (arith, e), λ p. ap (count p) (sym (some-injective _ _ h')))
    | inr e ↦ let bad : none ≡ some q' = rw e at h in ground arith
  ];
  drained = λ q h. drained_lem q h;
  least = λ q q' x h. least_lem q q' x h;
}

-- Batches of two, from a list; an article is too old from 0 down.
abbrev from : List ℕ → Sources ℕ ℕ ℕ
from all = record {
  list_pub = λ o n. found (take n (drop o all));
  likes = λ arts. found (λ art. some (pos art));
  score_func = λ n art. elim n [ pos m ↦ m | negsuc m ↦ 0 ];
  before_ddl = λ art. art == 0;
  batch_size = 2;
}

abbrev nothing : Element
nothing = record { score = 0; art = 0 }

asymmetric : (x y : ℕ) → ltb x y ≡ true → ltb y x ≡ false
asymmetric x y h = ground arith

-- Of 3, 9, 4, 7 and 5 the two from 6 on are kept.
scan_keeps_best_example :
    (k : ℕ) × (q : List Element) × (scan ltb two_places nothing
        (from (3 ∷ 9 ∷ 4 ∷ 7 ∷ 5 ∷ []))
        6
        0
        []
      ≡ complete q)
    × ((5 ≤ k) ⊎ (last_is_before (λ art. art == 0) (take k (3 ∷ 9 ∷ 4 ∷ 7 ∷ 5 ∷ [])) ≡ true))
    × (count (λ y. ltb 5 y.score) q
        ≡ min 2 (
            count
              (λ y. ltb 5 y.score)
              (scored ltb
                (λ n art. elim n [ pos m ↦ m | negsuc m ↦ 0 ])
                (λ art. pos art)
                (take k (3 ∷ 9 ∷ 4 ∷ 7 ∷ 5 ∷ [])))))
scan_keeps_best_example =
    scan_keeps_best ltb two_places nothing 2 two_places-IsPriorityQueue
      (from (3 ∷ 9 ∷ 4 ∷ 7 ∷ 5 ∷ [])) asymmetric (omega arith) (3 ∷ 9 ∷ 4 ∷ 7 ∷ 5 ∷ [])
      (λ art. pos art) (λ o n. refl) (λ arts. refl) (omega arith) 6 (λ y. ltb 5 y.score)
      (omega arith) (λ x y h l. ground (arith, h, l))

the_best_two :
    scan ltb two_places nothing (from (3 ∷ 9 ∷ 4 ∷ 7 ∷ 5 ∷ [])) 6 0 []
    ≡ complete (record { score = 7; art = 7 } ∷ record { score = 9; art = 9 } ∷ [])
unfolding scan offer_batch offer
the_best_two = refl

top_n_panics_example : top_n ltb two_places nothing (from (3 ∷ 9 ∷ 4 ∷ [])) 4 ≡ some panics
top_n_panics_example =
    top_n_panics ltb two_places nothing 2 two_places-IsPriorityQueue (from (3 ∷ 9 ∷ 4 ∷ []))
      asymmetric (omega arith) (3 ∷ 9 ∷ 4 ∷ []) (λ art. pos art) (λ o n. refl) (λ arts. refl)
      (omega arith) 4 (omega arith)

-- The counts of an article are missing: its nil pointer is read.
missing :
    top_n ltb two_places nothing (record (from (3 ∷ [])) { likes = λ arts. found (λ art. none) }) 4
    ≡ some panics
unfolding top_n scan offer_batch
missing = refl

abbrev texts : Json ℕ (List ℕ)
texts = record { json = λ arts. some arts; unjson = λ t. t }

abbrev empty : Store ℕ (List ℕ)
empty = record { local = record { top_n = []; ddl = 0; expiration = 10 }; redis = none }

third_run_blocks_example :
    ((run none (run (some 4) new_job).1).0 ≡ runs_top_n)
    × ((run
          (some 5)
          (after (renewal_failure ∷ runs none ∷ []) (run none (run (some 4) new_job).1).1)).0
        ≡ blocks)
    × (close (after (renewal_failure ∷ runs none ∷ []) (run none (run (some 4) new_job).1).1)
        ≡ waits)
third_run_blocks_example = third_run_blocks 4 none (some 5) (renewal_failure ∷ runs none ∷ [])
