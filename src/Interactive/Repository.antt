-- ===== src/Interactive/Repository.antt =====
-- webook/interactive/repository/interactive.go: CachedInteractiveRepository, the tables and the hashes
-- together. The goroutine of `BatchIncrReadCnt` is run at once. The logger is left out.
use weishu.Base.{ℕ, Bool, true, false, Option, none, some, List, [], ◌∷◌, Outcome, returns, panics}
use weishu.Base.{if◌then◌else◌, map}
use weishu.Base.Int.{ℤ}
use weishu.Interactive.Dao.{
  Interactive, Tables, Collation, DbError, database, record_not_found, Answer, found, failed,
  incr_read_cnt, batch_incr_read_cnt, insert_like_info, delete_like_info, insert_collection_biz,
  get_like_info, get_collect_info, get, get_by_ids,
}
use weishu.Interactive.Cache.{
  Counts, Hashes, incr_read_cnt_if_present, incr_like_cnt_if_present, decr_like_cnt_if_present,
  incr_collect_cnt_if_present, get_cached, set_cached,
}

-- domain.Interactive
pub record Shown (Text : Type 0) : Type 0 where
  pub biz : Text
  pub biz_id : ℕ
  pub read_cnt : ℕ
  pub like_cnt : ℤ
  pub collect_cnt : ℕ
  pub liked : Bool
  pub collected : Bool

pub record Store (Text : Type 0) : Type 0 where
  pub db : Tables Text
  pub cached : Hashes Text

pub data RepoError : Type 0 where
  from_database : DbError → RepoError
  from_redis : RepoError

module _ {Text : Type 0} where
  unfoldable pub to_domain : Interactive Text → Shown Text
  to_domain ie = record {
    biz = ie.biz;
    biz_id = ie.biz_id;
    read_cnt = ie.read_cnt;
    like_cnt = ie.like_cnt;
    collect_cnt = ie.collect_cnt;
    liked = false;
    collected = false;
  }

  -- What the cache's `Get` builds from the hash, and what `Set` takes from a domain object.
  unfoldable pub from_hash : Text → ℕ → Counts → Shown Text
  from_hash biz id c = record {
    biz = biz;
    biz_id = id;
    read_cnt = c.read_cnt;
    like_cnt = c.like_cnt;
    collect_cnt = c.collect_cnt;
    liked = false;
    collected = false;
  }

  unfoldable pub to_hash : Shown Text → Counts
  to_hash s = record { read_cnt = s.read_cnt; like_cnt = s.like_cnt; collect_cnt = s.collect_cnt }

-- A row that is not found is no error.
abbrev pub is_there : {A : Type 0} → Answer A → Answer Bool
is_there (found r) = found true
is_there (failed record_not_found) = found false
is_there (failed database) = failed database

module _ {Text : Type 0} (C : Collation Text) where
  -- The table is changed first, and the hash only if that has returned nil.
  abbrev pub then_cache :
      Option DbError × Tables Text
      → (Hashes Text → Bool × Hashes Text)
      → Store Text
      → Option RepoError × Store Text
  then_cache (some e, d) change s = (some (from_database e), record s { db = d })
  then_cache (none, d) change s =
      let (e, h) = change s.cached in
      (if e then some from_redis else none, record { db = d; cached = h })

  unfoldable pub incr_read :
      Bool → Bool → ℕ → ℕ → Text → ℕ → Store Text → Option RepoError × Store Text
  unfolding incr_read_cnt_if_present
  incr_read db_fails down now new_id biz id s =
      let (e, rows) = incr_read_cnt C db_fails now new_id biz id s.db.counts in
      then_cache (e, record s.db { counts = rows }) (incr_read_cnt_if_present C down biz id) s

  unfoldable pub incr_like :
      Bool → Bool → Bool → ℕ → ℕ → ℕ → Text → ℕ → ℕ → Store Text → Option RepoError × Store Text
  incr_like like_fails count_fails down now like_id new_id biz id uid s =
      then_cache (insert_like_info C like_fails count_fails now like_id new_id biz id uid s.db)
        (incr_like_cnt_if_present C down biz id) s

  unfoldable pub decr_like :
      Bool → Bool → Bool → ℕ → Text → ℕ → ℕ → Store Text → Option RepoError × Store Text
  decr_like like_fails count_fails down now biz id uid s =
      then_cache (delete_like_info C like_fails count_fails now biz id uid s.db)
        (decr_like_cnt_if_present C down biz id) s

  unfoldable pub add_collection_item :
      Bool → Bool → Bool → ℕ → ℕ → ℕ → Text → ℕ → ℕ → ℕ → Store Text → Option RepoError × Store Text
  add_collection_item collect_fails count_fails down now collect_id new_id biz id cid uid s =
      then_cache
        (insert_collection_biz C collect_fails count_fails now collect_id new_id
          (record { id = 0; uid = uid; biz_id = id; biz = biz; cid = cid; utime = 0; ctime = 0 })
          s.db)
        (incr_collect_cnt_if_present C down biz id) s

  -- The loop of the goroutine: an error of Redis does not end it.
  unfoldable pub incr_each :
      (ℕ → Bool) → ℕ → List Text → List ℕ → Hashes Text → Outcome (Hashes Text)
  incr_each down i [] ids h = returns h
  incr_each down i (biz ∷ bizs) [] h = panics
  incr_each down i (biz ∷ bizs) (id ∷ ids) h =
      incr_each down (ℕ.suc i) bizs ids (incr_read_cnt_if_present C (down i) biz id h).1

  -- The goroutine is started only when the statements have all returned nil.
  abbrev pub both_of :
      Outcome (Option DbError)
      → Outcome (Hashes Text)
      → Store Text
      → Tables Text
      → Outcome (Option DbError × Store Text)
  both_of panics o s d = panics
  both_of (returns (some e)) o s d = returns (some e, s)
  both_of (returns none) panics s d = panics
  both_of (returns none) (returns h) s d = returns (none, record { db = d; cached = h })

  unfoldable pub batch_incr_read :
      (ℕ → Bool)
      → (ℕ → Bool)
      → ℕ
      → (ℕ → ℕ)
      → List Text
      → List ℕ
      → Store Text
      → Outcome (Option DbError × Store Text)
  batch_incr_read db_fails down now new_id bizs ids s =
      let (o, rows) = batch_incr_read_cnt C db_fails now new_id 0 bizs ids s.db.counts in
      let d = record s.db { counts = rows } in
      both_of o (incr_each down 0 bizs ids s.cached) (record s { db = d }) d

  -- `Get`, by what the cache and the table answer; the table is asked only if the cache has nothing.
  abbrev pub shown_from :
      Bool
      → Bool
      → Text
      → ℕ
      → Store Text
      → Option Counts
      → Answer (Interactive Text)
      → Answer (Shown Text) × Store Text
  shown_from set_fails expire_fails biz id s (some c) answer = (found (from_hash biz id c), s)
  shown_from set_fails expire_fails biz id s none (failed e) = (failed e, s)
  shown_from set_fails expire_fails biz id s none (found ie) =
      let res = to_domain ie in
      (
        found res,
        record s { cached = (set_cached C set_fails expire_fails biz id (to_hash res) s.cached).1 },
      )

  unfoldable pub get_shown :
      Bool → Bool → Bool → Bool → Text → ℕ → Store Text → Answer (Shown Text) × Store Text
  get_shown db_fails down set_fails expire_fails biz id s =
      shown_from set_fails expire_fails biz id s (get_cached C down biz id s.cached)
        (get C db_fails biz id s.db)

  -- `Liked` and `Collected`
  unfoldable pub liked : Bool → Text → ℕ → ℕ → Store Text → Answer Bool
  liked fails biz id uid s = is_there (get_like_info C fails biz id uid s.db)

  unfoldable pub collected : Bool → Text → ℕ → ℕ → Store Text → Answer Bool
  collected fails biz id uid s = is_there (get_collect_info C fails biz id uid s.db)

  unfoldable pub get_all : Bool → Text → List ℕ → Store Text → Answer (List (Shown Text))
  get_all fails biz ids s = elim (get_by_ids C fails biz ids s.db) [
    | failed e ↦ failed e
    | found rows ↦ found (map to_domain rows)
  ]
