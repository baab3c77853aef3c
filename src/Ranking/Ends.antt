-- ===== src/Ranking/Ends.antt =====
-- That the loops of webook/internal/service/ranking_service.go come to an end, and in what.
use Prim.Native.Nat.{min}
use weishu.Base.{
  ap, sym, ◌∙◌, inl, inr, Bool-cases, ◌⊎◌, ℕ, zero, suc, ◌+◌, ◌≤◌, ◌<◌, ◌-◌, ◌≡◌, refl, Bool, true,
  false, some, List, [], arith, if◌then◌else◌, take, drop, length, ltb, is_empty, length-take,
  length-drop, returns, panics,
}
use weishu.Base.Int.{ℤ}
use weishu.Ranking.Queue.{count, always, Queue, IsPriorityQueue}
use weishu.Ranking.Service.{
  Score, found, Scanned, complete, Sources, last_is_before, is_last_batch, scan, top_n, unloaded,
  unload, returned,
}
use weishu.Ranking.Pages.{
  take-page, last_is_before-append, count-append, map-append, count-always, length-map,
  empty_length, filled_length, last_of_nil,
}
use weishu.Ranking.Best.{
  by_score, scored, IsUpward, Keeps, Keeps-new, Keeps-offer_batch, offered, count-offered,
}

module _ {E S A : Type 0} (less : S → S → Bool) (Q : Queue (Score S A)) (zero_ele : Score S A)
    (capacity : ℕ) (is_queue : IsPriorityQueue Q capacity (by_score less)) (src : Sources E S A)
    (asym : (x y : S) → less x y ≡ true → less y x ≡ false) (some_room : 1 ≤ capacity)
    (all : List A) (likes : A → ℤ)
    (pages : (o n : ℕ) → src.list_pub o n ≡ found (take n (drop o all)))
    (liked : (arts : List A) → src.likes arts ≡ found (λ art. some (likes art)))
    (some_batch : 1 ≤ src.batch_size) where
  -- The scan has come to an end behind the first `k` articles, with a queue that has as many of those of
  -- which the test holds as the capacity allows.
  abbrev Stopped : (Score S A → Bool) → ℕ → Q.State → Scanned E Q.State → Type 0
  Stopped p k q r =
      (r ≡ complete q)
      × ((length all ≤ k) ⊎ (last_is_before src.before_ddl (take k all) ≡ true))
      × (count p (Q.contents q)
          ≡ min capacity (count p (scored less src.score_func likes (take k all))))

  abbrev StoppedForAll : Scanned E Q.State → Type 0
  StoppedForAll r =
      (k : ℕ) × (q : Q.State) × ((p : Score S A → Bool) → IsUpward less p → Stopped p k q r)

  batch_lem :
      (o : ℕ) (seen : List (Score S A)) (q q' : Q.State)
      → ((p : Score S A → Bool)
          → count p seen ≡ count p (scored less src.score_func likes (take o all)))
      → let arts = take src.batch_size (drop o all) in
        (p : Score S A → Bool)
        → count p (offered less Q zero_ele capacity is_queue src.score_func likes arts seen)
          ≡ count p (scored less src.score_func likes (take (o + length arts) all))
  batch_lem o seen q q' same p =
      let arts = take src.batch_size (drop o all) in
      count-offered less Q zero_ele capacity is_queue p src.score_func likes arts seen
      ∙ omega (
        arith,
        same p,
        count-append p (scored less src.score_func likes (take o all))
            (scored less src.score_func likes arts),
        ap (count p) (
            map-append (λ art. record { score = src.score_func (likes art) art; art = art })
              (take o all) arts),
        ap (λ t. count p (scored less src.score_func likes t)) (take-page o src.batch_size all),
      )

  short_batch :
      (o : ℕ)
      → ltb (length (take src.batch_size (drop o all))) src.batch_size ≡ true
      → length all ≤ o + length (take src.batch_size (drop o all))
  short_batch o h = ground (arith, length-take src.batch_size (drop o all), length-drop o all)

  why_last :
      (o : ℕ)
      → let arts = take src.batch_size (drop o all) in
        is_last_batch less Q zero_ele src arts ≡ true
        → (length all ≤ o + length arts)
          ⊎ (last_is_before src.before_ddl (take (o + length arts) all) ≡ true)
  why_last o last =
      let arts = take src.batch_size (drop o all) in
      elim (Bool-cases (ltb (length arts) src.batch_size)) [
        | inl short ↦ inl (short_batch o short)
        | inr long ↦
            let late : last_is_before src.before_ddl arts ≡ true = rw long at last in
            inr (
              rw (take-page o src.batch_size all)
                (last_is_before-append src.before_ddl (take o all) arts late))
      ]

  less_left :
      (o fuel : ℕ)
      → let arts = take src.batch_size (drop o all) in
        is_last_batch less Q zero_ele src arts ≡ false
        → length all - o < suc fuel
        → length all - (o + length arts) < fuel
  less_left o fuel more enough =
      let arts = take src.batch_size (drop o all) in
      let long : ltb (length arts) src.batch_size ≡ false = ground arith in
      ground (arith, some_batch, length-take src.batch_size (drop o all), length-drop o all)

  -- Behind `o` articles, with more fuel than there are articles left.
  scan_lem :
      (fuel o : ℕ) (seen : List (Score S A)) (q : Q.State)
      → length all - o < fuel
      → Keeps less Q zero_ele capacity is_queue seen q
      → ((p : Score S A → Bool)
          → count p seen ≡ count p (scored less src.score_func likes (take o all)))
      → StoppedForAll (scan less Q zero_ele src fuel o q)
  unfolding scan
  scan_lem zero o seen q enough keeps same = absurd (omega (arith, enough))
  scan_lem (suc fuel) o seen q enough keeps same =
      let arts = take src.batch_size (drop o all) in
      let (q', taken, keeps') =
        Keeps-offer_batch less Q zero_ele capacity is_queue asym some_room src.score_func likes arts
          seen q keeps in
      let same' = batch_lem o seen q q' same in
      elim (Bool-cases (is_last_batch less Q zero_ele src arts)) [
        | inl last ↦ (
          o + length arts,
          q',
          λ p up. (
            rw (pages o src.batch_size, liked arts, taken, last) refl,
            why_last o last,
            keeps' p up ∙ ap (min capacity) (same' p),
          ),
        )
        | inr more ↦
            let (k, q'', rest) =
              scan_lem fuel (o + length arts) _ q' (less_left o fuel more enough) keeps' same' in
            (k, q'', λ p up. rw (pages o src.batch_size, liked arts, taken, more) (rest p up))
      ]

  scan_ends : (fuel : ℕ) → length all < fuel → StoppedForAll (scan less Q zero_ele src fuel 0 Q.new)
  scan_ends fuel enough =
      scan_lem fuel 0 [] Q.new (omega (arith, enough)) (Keeps-new less Q zero_ele capacity is_queue)
        (λ p. refl)

  -- When the articles are read from a list that does not change, every article has its likes, the queue
  -- has room, the comparison of scores is not symmetric and a batch is not empty, then with more fuel than
  -- articles the scan ends normally, behind the last article or behind one that is before the deadline.
  -- The queue then holds the best: of the articles read for which a test holds that is upward in the
  -- score, such as a bound, it has as many as the capacity allows.
  pub scan_keeps_best :
      (fuel : ℕ) (p : Score S A → Bool)
      → length all < fuel
      → IsUpward less p
      → (k : ℕ) × (q : Q.State) × (scan less Q zero_ele src fuel 0 Q.new ≡ complete q)
        × ((length all ≤ k) ⊎ (last_is_before src.before_ddl (take k all) ≡ true))
        × (count p (Q.contents q)
            ≡ min capacity (count p (scored less src.score_func likes (take k all))))
  scan_keeps_best fuel p enough up =
      let (k, q, stopped) = scan_ends fuel enough in
      let (ended, why, size) = stopped p up in (k, q, ended, why, size)

  unloaded_lem :
      (q : Q.State) (n : ℕ) (none_read : Bool)
      → (none_read ≡ true → n ≡ 0)
      → (none_read ≡ false → 1 ≤ n)
      → returned less Q zero_ele src (unloaded less Q zero_ele n q)
        ≡ (if none_read then returns (found []) else panics)
  unfolding unload
  unloaded_lem q zero true h k = refl
  unloaded_lem q zero false h k = let bad = k refl in absurd (omega arith)
  unloaded_lem q (suc n) true h k = let bad = h refl in absurd (omega arith)
  unloaded_lem q (suc n) false h k = refl

  read_some :
      (k : ℕ)
      → (length all ≤ k) ⊎ (last_is_before src.before_ddl (take k all) ≡ true)
      → 1 ≤ length all
      → 1 ≤ length (take k all)
  read_some k (inl far) some_art = omega (arith, far, some_art, length-take k all)
  read_some k (inr late) some_art = last_of_nil src.before_ddl (take k all) late

  -- On the same conditions `topN` returns the empty list when there is no article, and panics when there
  -- is one.
  pub top_n_panics :
      (fuel : ℕ)
      → length all < fuel
      → top_n less Q zero_ele src fuel ≡ some (if is_empty all then returns (found []) else panics)
  unfolding top_n
  top_n_panics fuel enough =
      let (k, q, stopped) = scan_ends fuel enough in
      let (ended, why, size) = stopped always (λ x y h l. refl) in
      let n = length (Q.contents q) in
      let kept : n ≡ min capacity (length (take k all)) =
        sym (count-always (Q.contents q))
        ∙ size
        ∙ ap (min capacity) (
            count-always (scored less src.score_func likes (take k all))
            ∙ length-map _ (take k all)) in
      rw ended (
        ap some (
          unloaded_lem q n (is_empty all)
            (λ e. omega (arith, kept, length-take k all, empty_length all e))
            (λ e. omega (arith, kept, some_room, read_some k why (filled_length all e)))))
