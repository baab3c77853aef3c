-- ===== src/Interactive/Tests.antt =====
-- Runs on small tables, and the theorems at concrete inputs.
use weishu.Base.{ℕ, ◌+◌, ◌≡◌, ◌==◌, refl, true, false, some, [], ◌∷◌, arith, returns, panics}
use weishu.Base.Int.{pos, negsuc}
use weishu.Interactive.Dao.{
  Interactive, Tables, Collation, database, record_not_found, found, failed, incr_read_cnt,
  batch_incr_read_cnt, batch_incr_read_cnt_v1, delete_like_info, insert_collection_biz,
  get_collect_info, get, get_by_ids,
}

abbrev exact : Collation ℕ
exact = record { same = λ a b. a == b; equal = λ a b. a == b }

same_refl : (a : ℕ) → (a == a) ≡ true
same_refl a = ground arith

same_left : (a b c : ℕ) → (a == b) ≡ true → (c == a) ≡ (c == b)
same_left a b c h = ground arith

same_join : (a b c : ℕ) → (c == a) ≡ true → (c == b) ≡ true → (a == b) ≡ true
same_join a b c h k = ground arith

abbrev row : ℕ → ℕ → Interactive ℕ
row id n = record {
  id = id;
  biz_id = id;
  biz = 1;
  read_cnt = n;
  like_cnt = pos 0;
  collect_cnt = 0;
  utime = 1;
  ctime = 1;
}

abbrev empty : Tables ℕ
empty = record { likes = []; collections = []; counts = row 5 7 ∷ [] }

-- The second statement fails: the first one stays, but for the transaction.
half :
    batch_incr_read_cnt exact
      (λ k. k == 1)
      9
      (λ k. k + 6)
      0
      (1 ∷ 1 ∷ [])
      (5 ∷ 6 ∷ [])
      (row 5 7 ∷ [])
    ≡ (returns (some database), record (row 5 8) { utime = 9 } ∷ [])
unfolding batch_incr_read_cnt incr_read_cnt
half = refl

undone :
    batch_incr_read_cnt_v1 exact
      (λ k. k == 1)
      9
      (λ k. k + 6)
      (1 ∷ 1 ∷ [])
      (5 ∷ 6 ∷ [])
      (row 5 7 ∷ [])
    ≡ (returns (some database), row 5 7 ∷ [])
unfolding batch_incr_read_cnt_v1 batch_incr_read_cnt incr_read_cnt
undone = refl

too_few :
    (batch_incr_read_cnt exact (λ k. false) 9 (λ k. k) 0 (1 ∷ 1 ∷ []) (5 ∷ []) (row 5 7 ∷ [])).0
    ≡ panics
unfolding batch_incr_read_cnt incr_read_cnt
too_few = refl

-- A like that was never given is taken back.
below_zero :
    get exact false 1 5 (delete_like_info exact false false 9 1 5 3 empty).1
    ≡ found (record (row 5 7) { like_cnt = negsuc 0; utime = 9 })
unfolding delete_like_info get
below_zero = refl

listed : get_by_ids exact false 1 (5 ∷ 8 ∷ []) empty ≡ found (row 5 7 ∷ [])
unfolding get_by_ids
listed = refl

not_collected : get_collect_info exact false 1 5 3 empty ≡ failed record_not_found
unfolding get_collect_info
not_collected = refl

collected :
    (insert_collection_biz exact false true 9 1 1
      (record { id = 0; uid = 3; biz_id = 5; biz = 1; cid = 2; utime = 0; ctime = 0 })
      empty)
    ≡ (some database, empty)
unfolding insert_collection_biz
collected = refl
