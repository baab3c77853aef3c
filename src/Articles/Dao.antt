-- ===== src/Articles/Dao.antt =====
-- webook/internal/repository/dao/article.go. A table is the list of its rows by primary key; a
-- statement that meets a fault changes nothing, and a transaction with one is rolled back. The key
-- that the database gives to a new row, and the clock, are arguments.
use weishu.Base.{
  ℕ, Bool, true, false, not, ◌&&◌, Option, none, some, List, [], ◌∷◌, ◌++◌, ltb, ◌==◌,
  if◌then◌else◌, take, drop, Outcome, panics,
}

pub record Article (Text : Type 0) : Type 0 where
  pub id : ℕ
  pub title : Text
  pub content : Text
  pub author_id : ℕ
  pub status : ℕ
  pub ctime : ℕ
  pub utime : ℕ

-- The two tables; `PublishedArticle` has the fields of `Article`.
pub record Tables (Text : Type 0) : Type 0 where
  pub articles : List (Article Text)
  pub published : List (Article Text)

-- A failure of the database, a row that is not there, or the error that `UpdateById` makes.
pub data ArticleError : Type 0 where
  database record_not_found wrong_id_or_author : ArticleError

-- What `Find`, `First` and the like answer.
pub data Answer (A : Type 0) : Type 0 where
  found : A → Answer A
  failed : ArticleError → Answer A

module _ {Text : Type 0} where
  abbrev pub find : ℕ → List (Article Text) → Option (Article Text)
  find id [] = none
  find id (r ∷ rows) = if r.id == id then some r else find id rows

  abbrev first_of : Option (Article Text) → Answer (Article Text)
  first_of none = failed record_not_found
  first_of (some r) = found r

  -- `GetById`
  unfoldable pub get_by_id : Bool → ℕ → Tables Text → Answer (Article Text)
  get_by_id fails id d = if fails then failed database else first_of (find id d.articles)

  -- `GetPubById`
  unfoldable pub get_pub_by_id : Bool → ℕ → Tables Text → Answer (Article Text)
  get_pub_by_id fails id d = if fails then failed database else first_of (find id d.published)

  -- `GetByAuthor` is not implemented.
  unfoldable pub get_by_author : ℕ → ℕ → ℕ → Tables Text → Outcome (Answer (List (Article Text)))
  get_by_author uid offset limit d = panics

  abbrev pub published_before : ℕ → List (Article Text) → List (Article Text)
  published_before start [] = []
  published_before start (r ∷ rows) =
      let rest = published_before start rows in
      if ltb r.utime start && r.status == 2 then r ∷ rest else rest

  -- `ListPub`
  unfoldable pub list_pub : Bool → ℕ → ℕ → ℕ → Tables Text → Answer (List (Article Text))
  list_pub fails start offset limit d =
      if fails
      then failed database
      else found (take limit (drop offset (published_before start d.published)))

  -- `Insert`: the new row has the id that it comes with, or a new one for zero.
  unfoldable pub insert :
      Bool
      → ℕ
      → ℕ
      → Article Text
      → List (Article Text)
      → (ℕ × Option ArticleError) × List (Article Text)
  insert fails now new_id art rows =
      let id = if art.id == 0 then new_id else art.id in
      if fails
      then ((art.id, some database), rows)
      else ((id, none), rows ++ record art { id = id; utime = now; ctime = now } ∷ [])

  -- The rows of `id=? AND author_id=?`, and what they become.
  abbrev pub is_own : Article Text → Article Text → Bool
  is_own art r = r.id == art.id && r.author_id == art.author_id

  abbrev pub edited : ℕ → Article Text → Article Text → Article Text
  edited now art r =
      if is_own art r
      then record r { title = art.title; content = art.content; utime = now; status = art.status }
      else r

  abbrev pub edit_rows : ℕ → Article Text → List (Article Text) → List (Article Text)
  edit_rows now art [] = []
  edit_rows now art (r ∷ rows) = edited now art r ∷ edit_rows now art rows

  -- On a conflict of the id, four columns are updated.
  abbrev pub upsert : Article Text → List (Article Text) → List (Article Text)
  upsert art [] = art ∷ []
  upsert art (r ∷ rows) =
      if r.id == art.id
      then record r {
        title = art.title;
        content = art.content;
        utime = art.utime;
        status = art.status;
      }
        ∷ rows
      else r ∷ upsert art rows

  module _ (same : Text → Text → Bool) where
    -- MySQL counts a row as affected when one of its columns changes.
    abbrev pub is_changed : ℕ → Article Text → Article Text → Bool
    is_changed now art r =
        is_own art r
        && not (
            same r.title art.title
            && same r.content art.content
            && r.utime == now
            && r.status == art.status)

    abbrev pub any_changed : ℕ → Article Text → List (Article Text) → Bool
    any_changed now art [] = false
    any_changed now art (r ∷ rows) = if is_changed now art r then true else any_changed now art rows

    -- `UpdateById`
    unfoldable pub update_by_id :
        Bool → ℕ → Article Text → List (Article Text) → Option ArticleError × List (Article Text)
    update_by_id fails now art rows =
        if fails
        then (some database, rows)
        else (if any_changed now art rows
            then (none, edit_rows now art rows)
            else (some wrong_id_or_author, rows))

    -- The first statement of `Sync`.
    save :
        Bool
        → ℕ
        → ℕ
        → Article Text
        → List (Article Text)
        → (ℕ × Option ArticleError) × List (Article Text)
    save fails now new_id art rows =
        if ltb 0 art.id
        then (let (e, rows') = update_by_id fails now art rows in ((art.id, e), rows'))
        else insert fails now new_id art rows

    -- The second one, in the same transaction.
    unfoldable pub publish :
        Bool
        → ℕ
        → Article Text
        → Tables Text
        → (ℕ × Option ArticleError) × List (Article Text)
        → (ℕ × Option ArticleError) × Tables Text
    publish fails now art d ((id, some e), rows) = ((id, some e), d)
    publish fails now art d ((id, none), rows) = if fails then ((id, some database), d) else (
      (id, none),
      record {
        articles = rows;
        published = upsert (record art { id = id; ctime = now; utime = now }) d.published;
      },
    )

    -- `Sync`, with the faults of its two statements and of the commit, and the two readings of the
    -- clock.
    unfoldable pub sync :
        Bool
        → Bool
        → ℕ
        → ℕ
        → ℕ
        → Article Text
        → Tables Text
        → (ℕ × Option ArticleError) × Tables Text
    unfolding save publish
    sync save_fails publish_fails now later new_id art d =
        publish publish_fails later art d (save save_fails now new_id art d.articles)

    -- On a conflict of the id, `SyncV1` updates three columns: the status is not one of them.
    abbrev pub upsert_v1 : Article Text → List (Article Text) → List (Article Text)
    upsert_v1 art [] = art ∷ []
    upsert_v1 art (r ∷ rows) =
        if r.id == art.id
        then record r { title = art.title; content = art.content; utime = art.utime } ∷ rows
        else r ∷ upsert_v1 art rows

    publish_v1 :
        Bool
        → ℕ
        → Article Text
        → Tables Text
        → (ℕ × Option ArticleError) × List (Article Text)
        → (ℕ × Option ArticleError) × Tables Text
    publish_v1 fails now art d ((id, some e), rows) = ((0, some e), d)
    publish_v1 fails now art d ((id, none), rows) = if fails then ((0, some database), d) else (
      (id, none),
      record {
        articles = rows;
        published = upsert_v1 (record art { id = id; ctime = now; utime = now }) d.published;
      },
    )

    -- `SyncV1`: it begins, rolls back and commits by itself. The error of the commit is not looked
    -- at, and the commit is taken to succeed here.
    unfoldable pub sync_v1 :
        Bool
        → Bool
        → Bool
        → ℕ
        → ℕ
        → ℕ
        → Article Text
        → Tables Text
        → (ℕ × Option ArticleError) × Tables Text
    unfolding save publish_v1
    sync_v1 begin_fails save_fails publish_fails now later new_id art d =
        if begin_fails
        then ((0, some database), d)
        else publish_v1 publish_fails later art d (save save_fails now new_id art d.articles)
