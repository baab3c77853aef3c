-- ===== src/Articles/Publishing.antt =====
-- What `Sync` of webook/internal/repository/dao/article.go does to the two tables.
use mathlib.Core.Option.{map, some-injective}
use mathlib.Core.Path.{subst}
use weishu.Base.{
  sym, ap, ◌∙◌, inl, inr, ◌⊎◌, Bool-cases, ℕ, suc, ◌≤◌, ◌<◌, ◌≡◌, refl, Bool, true, false, Option,
  none, some, List, [], ◌∷◌, ◌++◌, arith, ltb, ◌==◌, if◌then◌else◌,
}
use weishu.Articles.Dao.{
  Article, Tables, ArticleError, database, wrong_id_or_author, find, is_own, edit_rows, upsert,
  any_changed, is_changed, insert, update_by_id, publish, sync, sync_v1, upsert_v1,
}

module _ {Text : Type 0} where
  -- What readers see of an article.
  abbrev pub shown : Article Text → Text × Text × ℕ
  shown r = (r.title, r.content, r.status)

  -- The ids ascend, from `low` on: the primary key.
  abbrev pub IsAscending : ℕ → List (Article Text) → Type 0
  IsAscending low [] = Unit
  IsAscending low (r ∷ rows) = (low ≤ r.id) × IsAscending (suc r.id) rows

  find-upsert :
      (art : Article Text) (rows : List (Article Text))
      → map shown (find art.id (upsert art rows)) ≡ some (shown art)
  find-upsert art [] = ground arith
  find-upsert art (r ∷ rows) = elim (Bool-cases (r.id == art.id)) [
    | inl e ↦ rw (e, e) refl
    | inr e ↦ rw (e, e) (find-upsert art rows)
  ]

  find_low :
      (low id : ℕ) (rows : List (Article Text))
      → IsAscending low rows
      → id < low
      → find id rows ≡ none
  find_low low id [] a h = refl
  find_low low id (r ∷ rows) a h = ground (arith, find_low (suc r.id) id rows a.1)

  find-append :
      (id : ℕ) (rows : List (Article Text)) (r : Article Text)
      → find id rows ≡ none
      → r.id ≡ id
      → find id (rows ++ r ∷ []) ≡ some r
  find-append id [] r h e = ground arith
  find-append id (x ∷ rows) r h e = elim (Bool-cases (x.id == id)) [
    | inl q ↦ let no : some x ≡ none = rw q at h in cc
    | inr q ↦ rw q (find-append id rows r (rw q at h) e)
  ]

  module _ (same : Text → Text → Bool) where
    any_changed_low :
        (now low : ℕ) (art : Article Text) (rows : List (Article Text))
        → IsAscending low rows
        → art.id < low
        → any_changed same now art rows ≡ false
    any_changed_low now low art [] a h = refl
    any_changed_low now low art (r ∷ rows) a h =
        let off : is_changed same now art r ≡ false = ground arith in
        rw off (any_changed_low now (suc r.id) art rows a.1 (omega (arith, a.0)))

    find-edit_rows :
        (now low : ℕ) (art : Article Text) (rows : List (Article Text))
        → IsAscending low rows
        → any_changed same now art rows ≡ true
        → map shown (find art.id (edit_rows now art rows)) ≡ some (shown art)
    find-edit_rows now low art [] a h = cc
    find-edit_rows now low art (r ∷ rows) a h = elim (Bool-cases (is_changed same now art r)) [
      | inl e ↦
          let own : is_own art r ≡ true = ground arith in
          let at : (r.id == art.id) ≡ true = ground arith in rw (own, at) refl
      | inr e ↦
          let rest : any_changed same now art rows ≡ true = rw e at h in
          elim (Bool-cases (r.id == art.id)) [
            | inl q ↦
                let none_left = any_changed_low now (suc r.id) art rows a.1 (ground arith) in
                let no : true ≡ false = sym rest ∙ none_left in cc
            | inr q ↦
                let own : is_own art r ≡ false = ground arith in
                rw (own, q) (find-edit_rows now (suc r.id) art rows a.1 rest)
          ]
    ]

    sync_saved :
        (now later new_id : ℕ) (art : Article Text) (d : Tables Text)
        → 0 < art.id
        → any_changed same now art d.articles ≡ true
        → sync same false false now later new_id art d ≡ (
          (art.id, none),
          record {
            articles = edit_rows now art d.articles;
            published = upsert (record art { ctime = later; utime = later }) d.published;
          },
        )
    unfolding sync update_by_id
    sync_saved now later new_id art d pos c =
        let big : ltb 0 art.id ≡ true = ground arith in rw (big, c) refl

    sync_inserted :
        (now later new_id : ℕ) (art : Article Text) (d : Tables Text)
        → art.id ≡ 0
        → sync same false false now later new_id art d ≡ (
          (new_id, none),
          record {
            articles = d.articles ++ record art { id = new_id; utime = now; ctime = now } ∷ [];
            published =
                upsert (record art { id = new_id; ctime = later; utime = later }) d.published;
          },
        )
    unfolding sync insert
    sync_inserted now later new_id art d z =
        let small : ltb 0 art.id ≡ false = ground arith in
        let new : (art.id == 0) ≡ true = ground arith in rw (small, new) refl

    -- Without a fault, over an authors' table in the order of its ids: publishing an article that the
    -- author has, with any change to its row, and publishing a new one under an id that no row has,
    -- both return its id and no error, and make authors and readers see the title, the content and the
    -- status that were given.
    pub sync_publishes :
        (now later new_id low : ℕ) (art : Article Text) (d : Tables Text)
        → IsAscending low d.articles
        → find new_id d.articles ≡ none
        → (any_changed same now art d.articles ≡ true) ⊎ (art.id ≡ 0)
        → let ((id, e), d') = sync same false false now later new_id art d in
          (e ≡ none)
          × (id ≡ (if art.id == 0 then new_id else art.id))
          × (map shown (find id d'.articles) ≡ some (shown art))
          × (map shown (find id d'.published) ≡ some (shown art))
    sync_publishes now later new_id low art d a fresh c = elim (Bool-cases (art.id == 0)) [
      | inl z ↦
          rw (sync_inserted now later new_id art d (ground arith), z)
            (
              refl,
              refl,
              ap (map shown) (
                  find-append new_id d.articles
                    (record art { id = new_id; utime = now; ctime = now }) fresh refl),
              find-upsert (record art { id = new_id; ctime = later; utime = later }) d.published,
            )
      | inr z ↦
          let old : any_changed same now art d.articles ≡ true = ground arith in
          rw (sync_saved now later new_id art d (ground arith) old, z)
            (
              refl,
              refl,
              find-edit_rows now low art d.articles a old,
              find-upsert (record art { ctime = later; utime = later }) d.published,
            )
    ]

    publish_rolls_back :
        (fails : Bool) (now : ℕ) (art : Article Text) (d : Tables Text)
        (saved : (ℕ × Option ArticleError) × List (Article Text)) (e : ArticleError)
        → (publish same fails now art d saved).0.1 ≡ some e
        → (publish same fails now art d saved).1 ≡ d
    unfolding publish
    publish_rolls_back fails now art d ((id, some e'), rows) e h = refl
    publish_rolls_back true now art d ((id, none), rows) e h = refl
    publish_rolls_back false now art d ((id, none), rows) e h = cc

    any_changed_other :
        (now low : ℕ) (art : Article Text) (rows : List (Article Text)) (r : Article Text)
        → IsAscending low rows
        → find art.id rows ≡ some r
        → (r.author_id == art.author_id) ≡ false
        → any_changed same now art rows ≡ false
    any_changed_other now low art [] r a f other = cc
    any_changed_other now low art (x ∷ rows) r a f other = elim (Bool-cases (x.id == art.id)) [
      | inl q ↦
          let theirs : (x.author_id == art.author_id) ≡ false =
            subst (λ y. (y.author_id == art.author_id) ≡ false)
              (sym (some-injective _ _ (rw q at f))) other in
          let off : is_changed same now art x ≡ false = ground arith in
          rw off (any_changed_low now (suc x.id) art rows a.1 (ground arith))
      | inr q ↦
          let off : is_changed same now art x ≡ false = ground arith in
          rw off (any_changed_other now (suc x.id) art rows r a.1 (rw q at f) other)
    ]

    -- Whatever fails, if `Sync` returns an error, both tables are as they were.
    pub sync_rolls_back :
        (save_fails publish_fails : Bool) (now later new_id : ℕ) (art : Article Text)
        (d : Tables Text) (e : ArticleError)
        → (sync same save_fails publish_fails now later new_id art d).0.1 ≡ some e
        → (sync same save_fails publish_fails now later new_id art d).1 ≡ d
    unfolding sync update_by_id insert
    sync_rolls_back save_fails publish_fails now later new_id art d e h =
        publish_rolls_back publish_fails later art d _ e h

    -- An article of another author is refused, whatever the faults, and nothing changes.
    pub sync_of_other :
        (save_fails publish_fails : Bool) (now later new_id : ℕ) (art : Article Text)
        (d : Tables Text) (r : Article Text) (low : ℕ)
        → IsAscending low d.articles
        → 0 < art.id
        → find art.id d.articles ≡ some r
        → (r.author_id == art.author_id) ≡ false
        → let ((id, err), d') = sync same save_fails publish_fails now later new_id art d in
          (err ≡ some (if save_fails then database else wrong_id_or_author)) × (d' ≡ d)
    unfolding sync update_by_id
    sync_of_other save_fails publish_fails now later new_id art d r low a pos f other =
        let big : ltb 0 art.id ≡ true = ground arith in
        let off = any_changed_other now low art d.articles r a f other in
        elim (Bool-cases save_fails) [
          | inl e ↦ rw (big, e) (refl, refl)
          | inr e ↦ rw (big, e, off) (refl, refl)
        ]

    find-upsert_v1 :
        (art : Article Text) (rows : List (Article Text)) (p : Article Text)
        → find art.id rows ≡ some p
        → map shown (find art.id (upsert_v1 same art rows))
          ≡ some (art.title, art.content, p.status)
    find-upsert_v1 art [] p h = cc
    find-upsert_v1 art (r ∷ rows) p h = elim (Bool-cases (r.id == art.id)) [
      | inl e ↦
          let first : r ≡ p = some-injective _ _ (rw e at h) in
          rw (e, e) (ap (λ (x : Article Text). some (art.title, art.content, x.status)) first)
      | inr e ↦ rw (e, e) (find-upsert_v1 art rows p (rw e at h))
    ]

    -- Without a fault, `SyncV1` of an article that the author has and readers see already shows its
    -- readers the new title and content, but the status as it was before.
    pub sync_v1_keeps_status :
        (now later new_id : ℕ) (art : Article Text) (d : Tables Text) (p : Article Text)
        → 0 < art.id
        → any_changed same now art d.articles ≡ true
        → find art.id d.published ≡ some p
        → let ((id, e), d') = sync_v1 same false false false now later new_id art d in
          (e ≡ none)
          × (map shown (find art.id d'.published) ≡ some (art.title, art.content, p.status))
    unfolding sync_v1 update_by_id
    sync_v1_keeps_status now later new_id art d p pos c f =
        let big : ltb 0 art.id ≡ true = ground arith in
        rw (big, c)
          (refl, find-upsert_v1 (record art { ctime = later; utime = later }) d.published p f)
