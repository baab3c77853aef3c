-- ===== src/Articles/Repository.antt =====
-- webook/internal/repository/article.go, webook/internal/repository/cache/article.go and
-- webook/internal/service/article.go over the tables of Articles/Dao.antt. What json reads back, the
-- abstract of a text, and whether a text is small, are arguments, and so is `SyncStatus` of the DAO. The goroutines that write the cache run at once; a time is its
-- milliseconds.
use weishu.Base.{
  ℕ, Bool, ◌&&◌, Option, none, some, List, [], ◌∷◌, map, ltb, ◌==◌, if◌then◌else◌, Outcome, returns,
  panics,
}
use weishu.Articles.Dao.{
  Article, Tables, ArticleError, Answer, found, failed, get_by_id, get_pub_by_id, get_by_author,
  list_pub, insert, update_by_id, sync,
}
use weishu.Articles.Authors.{People, Asking, author_name}

-- domain.Article
pub record Shown (Text : Type 0) : Type 0 where
  pub id : ℕ
  pub title : Text
  pub content : Text
  pub author_id : ℕ
  pub author_name : Text
  pub status : ℕ
  pub ctime : ℕ
  pub utime : ℕ

-- The tables, and what Redis holds under the keys of an article, of a published article and of the first
-- page of an author.
pub record Store (Text : Type 0) : Type 0 where
  pub db : Tables Text
  pub details : ℕ → Option (Shown Text)
  pub published : ℕ → Option (Shown Text)
  pub first_pages : ℕ → Option (List (Shown Text))

-- `same` and `no_text` are of Go and MySQL; `reread` is what json reads of what it wrote, and
-- `reread_broken` what is left in the variable when it cannot.
pub record World (Text : Type 0) : Type 0 where
  pub same : Text → Text → Bool
  pub no_text : Text
  pub abstract : Text → Text
  pub is_small : Text → Bool
  pub reread : Shown Text → Option (Shown Text)
  pub reread_broken : Shown Text → Shown Text
  pub dao_sync_status : ℕ → ℕ → ℕ → Tables Text → Option ArticleError × Tables Text

pub data ReadError : Type 0 where
  from_dao : ArticleError → ReadError
  from_users : ReadError

pub data Reply (A : Type 0) : Type 0 where
  replied : A → Reply A
  refused : ReadError → Reply A

module _ {Text : Type 0} where
  unfoldable pub to_entity : Shown Text → Article Text
  to_entity art = record {
    id = art.id;
    title = art.title;
    content = art.content;
    author_id = art.author_id;
    status = art.status;
    ctime = 0;
    utime = 0;
  }

module _ {Text : Type 0} (W : World Text) where
  unfoldable pub to_domain : Article Text → Shown Text
  to_domain art = record {
    id = art.id;
    title = art.title;
    content = art.content;
    author_id = art.author_id;
    author_name = W.no_text;
    status = art.status;
    ctime = art.ctime;
    utime = art.utime;
  }

  -- The cache. `Get` does not look at the error of Unmarshal, `GetPub` does.
  unfoldable pub get_detail : Bool → ℕ → Store Text → Option (Shown Text)
  get_detail down id s = if down then none else elim (s.details id) [
    | none ↦ none
    | some a ↦ some (elim (W.reread a) [ some b ↦ b | none ↦ W.reread_broken a ])
  ]

  unfoldable pub set_detail : Bool → Shown Text → Store Text → Store Text
  set_detail down art s =
      if down then s else record s { details = λ i. if i == art.id then some art else s.details i }

  unfoldable pub get_pub : Bool → ℕ → Store Text → Option (Shown Text)
  get_pub down id s =
      if down then none else elim (s.published id) [ none ↦ none | some a ↦ W.reread a ]

  unfoldable pub set_pub : Bool → Shown Text → Store Text → Store Text
  set_pub down art s =
      if down
      then s
      else record s { published = λ i. if i == art.id then some art else s.published i }

  abbrev shortened : Shown Text → Shown Text
  shortened a = record a { content = W.abstract a.content }

  unfoldable pub set_first_page : Bool → ℕ → List (Shown Text) → Store Text → Store Text
  set_first_page down uid arts s = if down then s else record s {
    first_pages = λ u. if u == uid then some (map shortened arts) else s.first_pages u;
  }

  -- `preCache`
  unfoldable pub pre_cache : Bool → List (Shown Text) → Store Text → Store Text
  pre_cache down [] s = s
  pre_cache down (a ∷ arts) s = if W.is_small a.content then set_detail down a s else s

  -- The repository
  unfoldable pub create :
      Bool → ℕ → ℕ → Shown Text → Store Text → (ℕ × Option ArticleError) × Store Text
  create fails now new_id art s =
      let ((id, e), rows) = insert fails now new_id (to_entity art) s.db.articles in
      ((elim e [ none ↦ id | some x ↦ 0 ], e), record s { db = record s.db { articles = rows } })

  unfoldable pub update : Bool → ℕ → Shown Text → Store Text → Option ArticleError × Store Text
  update fails now art s =
      let (e, rows) = update_by_id W.same fails now (to_entity art) s.db.articles in
      (e, record s { db = record s.db { articles = rows } })

  unfoldable pub sync_both :
      Bool → Bool → ℕ → ℕ → ℕ → Shown Text → Store Text → (ℕ × Option ArticleError) × Store Text
  sync_both save_fails publish_fails now later new_id art s =
      let ((id, e), d) =
        sync W.same save_fails publish_fails now later new_id (to_entity art) s.db in
      ((elim e [ none ↦ id | some x ↦ 0 ], e), record s { db = d })

  -- `SyncStatus`: when the DAO has returned nil, `DelFirstPage` is called, which is not implemented. The
  -- store is what it has become by then.
  unfoldable pub sync_status : ℕ → ℕ → ℕ → Store Text → Outcome (Option ArticleError) × Store Text
  sync_status uid id status s =
      let (e, d) = W.dao_sync_status uid id status s.db in
      (elim e [ none ↦ panics | some x ↦ returns (some x) ], record s { db = d })

  abbrev pub cached_page : ℕ → ℕ → ℕ → Bool → Store Text → Option (List (Shown Text))
  cached_page uid offset limit down s =
      if offset == 0 && ltb limit 100 then (if down then none else s.first_pages uid) else none

  -- `GetByAuthor`, by what the cache and the DAO answer, and its two goroutines.
  abbrev pub page_from :
      ℕ
      → ℕ
      → ℕ
      → Bool
      → Option (List (Shown Text))
      → Outcome (Answer (List (Article Text)))
      → Store Text
      → Outcome (Reply (List (Shown Text))) × Store Text
  page_from uid offset limit down (some arts) o s = (returns (replied arts), s)
  page_from uid offset limit down none panics s = (panics, s)
  page_from uid offset limit down none (returns (failed e)) s = (returns (refused (from_dao e)), s)
  page_from uid offset limit down none (returns (found rows)) s =
      let res = map to_domain rows in
      let s' = if offset == 0 && ltb limit 100 then set_first_page down uid res s else s in
      (returns (replied res), pre_cache down res s')

  unfoldable pub page_of_author :
      ℕ → ℕ → ℕ → Bool → Store Text → Outcome (Reply (List (Shown Text))) × Store Text
  page_of_author uid offset limit down s =
      page_from uid offset limit down (cached_page uid offset limit down s)
        (get_by_author uid offset limit s.db) s

  abbrev pub detail_from :
      Bool
      → Option (Shown Text)
      → Answer (Article Text)
      → Store Text
      → Reply (Shown Text) × Store Text
  detail_from down (some a) r s = (replied a, s)
  detail_from down none (failed e) s = (refused (from_dao e), s)
  detail_from down none (found r) s = (replied (to_domain r), set_detail down (to_domain r) s)

  -- `GetById`
  unfoldable pub detail : Bool → Bool → Bool → ℕ → Store Text → Reply (Shown Text) × Store Text
  detail down fails set_down id s =
      detail_from set_down (get_detail down id s) (get_by_id fails id s.db) s

  abbrev pub with_name :
      Bool
      → Shown Text
      → Option Text × People Text
      → Store Text
      → Reply (Shown Text) × (Store Text × People Text)
  with_name down res (none, p) s = (refused from_users, (s, p))
  with_name down res (some name, p) s =
      let res' = record res { author_name = name } in (replied res', (set_pub down res' s, p))

  -- The user repository is asked only for a row of the table.
  abbrev pub pub_from :
      Asking Text
      → Bool
      → Option (Shown Text)
      → Answer (Article Text)
      → Store Text
      → People Text
      → Reply (Shown Text) × (Store Text × People Text)
  pub_from U down (some a) r s p = (replied a, (s, p))
  pub_from U down none (failed e) s p = (refused (from_dao e), (s, p))
  pub_from U down none (found r) s p = with_name down (to_domain r) (author_name U r.author_id p) s

  -- `GetPubById`
  unfoldable pub pub_detail :
      Asking Text
      → Bool
      → Bool
      → Bool
      → ℕ
      → Store Text
      → People Text
      → Reply (Shown Text) × (Store Text × People Text)
  pub_detail U down fails set_down id s p =
      pub_from U set_down (get_pub down id s) (get_pub_by_id fails id s.db) s p

  unfoldable pub pub_list : Bool → ℕ → ℕ → ℕ → Store Text → Reply (List (Shown Text))
  pub_list fails start offset limit s = elim (list_pub fails start offset limit s.db) [
    | failed e ↦ refused (from_dao e)
    | found rows ↦ replied (map to_domain rows)
  ]
