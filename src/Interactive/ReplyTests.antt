-- ===== src/Interactive/ReplyTests.antt =====
-- Calls of the client, the consumer and the repository on a small store, and the theorems there.
use weishu.Base.{ℕ, ◌+◌, ◌≡◌, ◌==◌, true, false, some, none, List, [], ◌∷◌, arith}
use weishu.Base.Int.{pos}
use weishu.Interactive.Dao.{Interactive, Collation, found}
use weishu.Interactive.Cache.{Counts}
use weishu.Interactive.Repository.{Store, from_redis, liked}
use weishu.Interactive.History.{Operation, read_batch, like, show}
use weishu.Interactive.Calls.{client_like, client_cancel_like}
use weishu.Interactive.Uncounted.{client_like_fails}

abbrev exact : Collation ℕ
exact = record { same = λ a b. a == b; equal = λ a b. a == b }

same_refl : (a : ℕ) → (a == a) ≡ true
same_refl a = ground arith

same_left : (a b c : ℕ) → (a == b) ≡ true → (c == a) ≡ (c == b)
same_left a b c h = ground arith

same_join : (a b c : ℕ) → (c == a) ≡ true → (c == b) ≡ true → (a == b) ≡ true
same_join a b c h k = ground arith

abbrev row : Interactive ℕ
row = record {
  id = 5;
  biz_id = 5;
  biz = 1;
  read_cnt = 7;
  like_cnt = pos 0;
  collect_cnt = 0;
  utime = 1;
  ctime = 1;
}

abbrev bare : Store ℕ
bare = record {
  db = record { likes = []; collections = []; counts = row ∷ [] };
  cached = λ b i. none;
}

-- A hash is filled; a read event and a like follow it, and a like that meets a fault of the database.
abbrev calls : List (Operation ℕ)
calls =
    show false false false false 1 5
    ∷ read_batch (λ i. false) (λ i. false) 2 (λ i. 6 + i) ((1, 5) ∷ (1, 7) ∷ [])
    ∷ like false false false 3 6 6 1 5 8
    ∷ like false true false 4 7 7 1 5 9
    ∷ []

abbrev row_after : Interactive ℕ
row_after = record row { read_cnt = 8; like_cnt = pos 1; utime = 3 }

-- The hash is what it was before the read and the like.
abbrev old_counts : Counts
old_counts = record { read_cnt = 7; like_cnt = pos 0; collect_cnt = 0 }

client_like_fails_example :
    let (e, s') = client_like exact 50 30 false false false 3 6 6 1 5 8 bare in
    let (e', s'') = client_cancel_like exact 50 30 false false false 3 1 5 8 bare in
    (e ≡ some from_redis)
    × (liked exact false 1 5 8 s' ≡ found true)
    × (e' ≡ some from_redis)
    × (liked exact false 1 5 8 s'' ≡ found false)
client_like_fails_example =
    client_like_fails exact same_refl same_left same_join 50 30 false 3 6 6 1 5 8 bare
