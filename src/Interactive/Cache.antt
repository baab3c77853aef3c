-- ===== src/Interactive/Cache.antt =====
-- webook/interactive/repository/cache/interactive.go: for every biz and id, a Redis hash of three
-- counts. Each call of Redis is given whether it fails. The script lua/incr_cnt.lua is an empty file. The
-- hash that expires is an operation of its own.
use weishu.Base.{ℕ, Bool, true, ◌&&◌, Option, none, some, ◌==◌, if◌then◌else◌}
use weishu.Base.Int.{ℤ, pos, negsuc}
use weishu.Interactive.Dao.{Collation}

pub data Field : Type 0 where
  field_read_cnt field_like_cnt field_collect_cnt : Field

pub record Counts : Type 0 where
  pub read_cnt : ℕ
  pub like_cnt : ℤ
  pub collect_cnt : ℕ

-- What Redis holds under `interactive:biz:id`; it compares keys as Go compares texts.
abbrev pub Hashes : Type 0 → Type 0
Hashes Text = Text → ℕ → Option Counts

-- What a script makes of the hash at its key, and whether its call ends in an error.
abbrev pub Script : Type 0
Script = Field → ℤ → Option Counts → Bool × Option Counts

-- The empty script: Redis answers nil, which go-redis gives as the error redis.Nil.
abbrev pub incr_cnt : Script
incr_cnt f i h = (true, h)

module _ {Text : Type 0} (C : Collation Text) where
  abbrev pub put : Text → ℕ → Option Counts → Hashes Text → Hashes Text
  put biz id v h = λ b i. if C.equal biz b && id == i then v else h b i

  -- `Eval` of the script at the key.
  abbrev pub eval : Bool → Text → ℕ → Field → ℤ → Hashes Text → Bool × Hashes Text
  eval down biz id f i h =
      if down then (true, h) else (let (e, v) = incr_cnt f i (h biz id) in (e, put biz id v h))

  -- Each of the four says whether it returns an error.
  unfoldable pub incr_read_cnt_if_present : Bool → Text → ℕ → Hashes Text → Bool × Hashes Text
  incr_read_cnt_if_present down biz id h = eval down biz id field_read_cnt (pos 1) h

  unfoldable pub incr_like_cnt_if_present : Bool → Text → ℕ → Hashes Text → Bool × Hashes Text
  incr_like_cnt_if_present down biz id h = eval down biz id field_like_cnt (pos 1) h

  unfoldable pub decr_like_cnt_if_present : Bool → Text → ℕ → Hashes Text → Bool × Hashes Text
  decr_like_cnt_if_present down biz id h = eval down biz id field_like_cnt (negsuc 0) h

  unfoldable pub incr_collect_cnt_if_present : Bool → Text → ℕ → Hashes Text → Bool × Hashes Text
  incr_collect_cnt_if_present down biz id h = eval down biz id field_collect_cnt (pos 1) h

  -- `Get`: none stands for both of its errors, which its caller does not tell apart.
  unfoldable pub get_cached : Bool → Text → ℕ → Hashes Text → Option Counts
  get_cached down biz id h = if down then none else h biz id

  -- `Set`: `HSet`, which gives all three fields, and then `Expire`.
  unfoldable pub set_cached : Bool → Bool → Text → ℕ → Counts → Hashes Text → Bool × Hashes Text
  set_cached down expire_fails biz id c h =
      if down then (true, h) else (expire_fails, put biz id (some c) h)

  unfoldable pub expire : Text → ℕ → Hashes Text → Hashes Text
  expire biz id h = put biz id none h
