-- ===== src/Interactive/Dao.antt =====
-- webook/interactive/repository/dao/interactive.go. A statement that meets a fault changes nothing,
-- and a transaction with one is rolled back. The clock and the key of a new row are arguments, and so
-- is MySQL's comparison of two texts.
use weishu.Base.{
  ℕ, suc, ◌+◌, Bool, true, false, ◌&&◌, Option, none, some, List, [], ◌∷◌, ◌==◌, if◌then◌else◌,
  Outcome, returns, panics,
}
use weishu.Base.Int.{ℤ, pos, increment, decrement}

pub record UserLikeBiz (Text : Type 0) : Type 0 where
  pub id : ℕ
  pub uid : ℕ
  pub biz_id : ℕ
  pub biz : Text
  pub status : ℕ
  pub utime : ℕ
  pub ctime : ℕ

pub record UserCollectionBiz (Text : Type 0) : Type 0 where
  pub id : ℕ
  pub uid : ℕ
  pub biz_id : ℕ
  pub biz : Text
  pub cid : ℕ
  pub utime : ℕ
  pub ctime : ℕ

pub record Interactive (Text : Type 0) : Type 0 where
  pub id : ℕ
  pub biz_id : ℕ
  pub biz : Text
  pub read_cnt : ℕ
  pub like_cnt : ℤ
  pub collect_cnt : ℕ
  pub utime : ℕ
  pub ctime : ℕ

pub record Tables (Text : Type 0) : Type 0 where
  pub likes : List (UserLikeBiz Text)
  pub collections : List (UserCollectionBiz Text)
  pub counts : List (Interactive Text)

-- The comparison of two texts by the collation of the column, and that of Go and Redis.
pub record Collation (Text : Type 0) : Type 0 where
  pub same : Text → Text → Bool
  pub equal : Text → Text → Bool

pub data DbError : Type 0 where
  database record_not_found : DbError

pub data Answer (A : Type 0) : Type 0 where
  found : A → Answer A
  failed : DbError → Answer A

module _ {A : Type 0} where
  abbrev pub find_by : (A → Bool) → List A → Option A
  find_by p [] = none
  find_by p (r ∷ rows) = if p r then some r else find_by p rows

  -- `INSERT … ON DUPLICATE KEY UPDATE`, where `p` holds of the row with the key of `new`.
  abbrev pub upsert : (A → Bool) → (A → A) → A → List A → List A
  upsert p f new [] = new ∷ []
  upsert p f new (r ∷ rows) = if p r then f r ∷ rows else r ∷ upsert p f new rows

  -- `UPDATE … WHERE`
  abbrev pub update_where : (A → Bool) → (A → A) → List A → List A
  update_where p f [] = []
  update_where p f (r ∷ rows) = (if p r then f r else r) ∷ update_where p f rows

  abbrev pub filter_by : (A → Bool) → List A → List A
  filter_by p [] = []
  filter_by p (r ∷ rows) = let rest = filter_by p rows in if p r then r ∷ rest else rest

  abbrev pub first_of : Bool → Option A → Answer A
  first_of true r = failed database
  first_of false none = failed record_not_found
  first_of false (some r) = found r

abbrev pub is_in : ℕ → List ℕ → Bool
is_in i [] = false
is_in i (j ∷ js) = if i == j then true else is_in i js

module _ {Text : Type 0} (C : Collation Text) where
  abbrev pub is_at : Text → ℕ → Interactive Text → Bool
  is_at biz id r = C.same r.biz biz && r.biz_id == id

  abbrev pub likes_it : Text → ℕ → ℕ → UserLikeBiz Text → Bool
  likes_it biz id uid r = C.same r.biz biz && r.biz_id == id && r.uid == uid

  abbrev pub collects_it : Text → ℕ → ℕ → UserCollectionBiz Text → Bool
  collects_it biz id uid r = C.same r.biz biz && r.biz_id == id && r.uid == uid

  abbrev pub new_row : ℕ → ℕ → Text → ℕ → Interactive Text
  new_row now new_id biz id = record {
    id = new_id;
    biz_id = id;
    biz = biz;
    read_cnt = 0;
    like_cnt = pos 0;
    collect_cnt = 0;
    utime = now;
    ctime = now;
  }

  -- `IncrReadCnt`
  unfoldable pub incr_read_cnt :
      Bool → ℕ → ℕ → Text → ℕ → List (Interactive Text) → Option DbError × List (Interactive Text)
  incr_read_cnt fails now new_id biz id rows = if fails then (some database, rows) else (
    none,
    upsert (is_at biz id) (λ r. record r { read_cnt = r.read_cnt + 1; utime = now })
        (record (new_row now new_id biz id) { read_cnt = 1 }) rows,
  )

  -- `BatchIncrReadCnt`: one statement after another; `fails` and `new_id` say what becomes of each.
  -- An id that is missing panics.
  unfoldable pub batch_incr_read_cnt :
      (ℕ → Bool)
      → ℕ
      → (ℕ → ℕ)
      → ℕ
      → List Text
      → List ℕ
      → List (Interactive Text)
      → Outcome (Option DbError) × List (Interactive Text)
  batch_incr_read_cnt fails now new_id i [] ids rows = (returns none, rows)
  batch_incr_read_cnt fails now new_id i (biz ∷ bizs) [] rows = (panics, rows)
  batch_incr_read_cnt fails now new_id i (biz ∷ bizs) (id ∷ ids) rows =
      let (e, rows') = incr_read_cnt (fails i) now (new_id i) biz id rows in
      elim e [
        | none ↦ batch_incr_read_cnt fails now new_id (suc i) bizs ids rows'
        | some e' ↦ (returns (some e'), rows')
      ]

  -- A transaction keeps what its statements did only if it returns nil.
  commit_or :
      List (Interactive Text)
      → Outcome (Option DbError) × List (Interactive Text)
      → Outcome (Option DbError) × List (Interactive Text)
  commit_or old (returns none, rows) = (returns none, rows)
  commit_or old (returns (some e), rows) = (returns (some e), old)
  commit_or old (panics, rows) = (panics, old)

  -- `BatchIncrReadCntV1`: the same in one transaction.
  unfoldable pub batch_incr_read_cnt_v1 :
      (ℕ → Bool)
      → ℕ
      → (ℕ → ℕ)
      → List Text
      → List ℕ
      → List (Interactive Text)
      → Outcome (Option DbError) × List (Interactive Text)
  unfolding commit_or
  batch_incr_read_cnt_v1 fails now new_id bizs ids rows =
      commit_or rows (batch_incr_read_cnt fails now new_id 0 bizs ids rows)

  -- `InsertLikeInfo`, with the faults of its two statements.
  unfoldable pub insert_like_info :
      Bool → Bool → ℕ → ℕ → ℕ → Text → ℕ → ℕ → Tables Text → Option DbError × Tables Text
  insert_like_info like_fails count_fails now like_id new_id biz id uid d =
      if like_fails
      then (some database, d)
      else (if count_fails then (some database, d) else (
        none,
        record d {
          likes =
              upsert (likes_it biz id uid) (λ r. record r { utime = now; status = 1 })
                (record {
                  id = like_id;
                  uid = uid;
                  biz_id = id;
                  biz = biz;
                  status = 1;
                  utime = now;
                  ctime = now;
                })
                d.likes;
          counts =
              upsert (is_at biz id) (λ r. record r { like_cnt = increment r.like_cnt; utime = now })
                (record (new_row now new_id biz id) { like_cnt = pos 1 }) d.counts;
        },
      ))

  -- `DeleteLikeInfo`: its second statement runs whether or not the first one found a row.
  unfoldable pub delete_like_info :
      Bool → Bool → ℕ → Text → ℕ → ℕ → Tables Text → Option DbError × Tables Text
  delete_like_info like_fails count_fails now biz id uid d =
      if like_fails
      then (some database, d)
      else (if count_fails then (some database, d) else (
        none,
        record d {
          likes =
              update_where (likes_it biz id uid) (λ r. record r { utime = now; status = 0 })
                d.likes;
          counts =
              update_where (is_at biz id)
                (λ r. record r { like_cnt = decrement r.like_cnt; utime = now }) d.counts;
        },
      ))

  -- `InsertCollectionBiz`
  unfoldable pub insert_collection_biz :
      Bool → Bool → ℕ → ℕ → ℕ → UserCollectionBiz Text → Tables Text → Option DbError × Tables Text
  insert_collection_biz collect_fails count_fails now collect_id new_id cb d =
      if collect_fails
      then (some database, d)
      else (if count_fails then (some database, d) else (
        none,
        record d {
          collections =
              upsert (collects_it cb.biz cb.biz_id cb.uid) (λ r. record r { utime = now })
                (record cb {
                  id = if cb.id == 0 then collect_id else cb.id;
                  utime = now;
                  ctime = now;
                })
                d.collections;
          counts =
              upsert (is_at cb.biz cb.biz_id)
                (λ r. record r { collect_cnt = r.collect_cnt + 1; utime = now })
                (record (new_row now new_id cb.biz cb.biz_id) { collect_cnt = 1 }) d.counts;
        },
      ))

  -- `GetLikeInfo`, `GetCollectInfo`, `Get` and `GetByIds`
  unfoldable pub get_like_info : Bool → Text → ℕ → ℕ → Tables Text → Answer (UserLikeBiz Text)
  get_like_info fails biz id uid d =
      first_of fails (find_by (λ r. likes_it biz id uid r && r.status == 1) d.likes)

  unfoldable pub get_collect_info :
      Bool → Text → ℕ → ℕ → Tables Text → Answer (UserCollectionBiz Text)
  get_collect_info fails biz id uid d =
      first_of fails (find_by (collects_it biz id uid) d.collections)

  unfoldable pub get : Bool → Text → ℕ → Tables Text → Answer (Interactive Text)
  get fails biz id d = first_of fails (find_by (is_at biz id) d.counts)

  unfoldable pub get_by_ids : Bool → Text → List ℕ → Tables Text → Answer (List (Interactive Text))
  get_by_ids fails biz ids d =
      if fails
      then failed database
      else found (filter_by (λ r. C.same r.biz biz && is_in r.biz_id ids) d.counts)
