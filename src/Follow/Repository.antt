-- ===== src/Follow/Repository.antt =====
-- webook/follow/repository/cache/redis.go, webook/follow/repository/followrelation.go, and the service
-- and the gRPC server over them. Each call of Redis is given whether it fails; the transaction of
-- `updateStaticsInfo` does both of its commands or none. The logger is left out.
use weishu.Base.{ℕ, Bool, Option, none, some, List, map, ◌==◌, if◌then◌else◌}
use weishu.Base.Int.{ℤ, pos, increment, decrement}
use weishu.Follow.Dao.{
  FollowRelation, status_inactive, FollowError, from_redis, Answer, found, failed, cnt_follower,
  cnt_followee, update_status, follow_relation_list, follow_relation_detail, create_follow_relation,
}

-- The hash of a user: the fields that it has.
pub record Hash : Type 0 where
  pub follower_cnt : Option ℤ
  pub followee_cnt : Option ℤ

abbrev pub Hashes : Type 0
Hashes = ℕ → Hash

-- domain.FollowRelation and domain.FollowStatics
pub record Relation : Type 0 where
  pub followee : ℕ
  pub follower : ℕ

pub record Statics : Type 0 where
  pub followers : ℤ
  pub followees : ℤ

pub record Store : Type 0 where
  pub rows : List FollowRelation
  pub cached : Hashes

abbrev pub field_or_zero : Option ℤ → ℤ
field_or_zero none = pos 0
field_or_zero (some i) = i

abbrev pub hash_set : ℕ → (Hash → Hash) → Hashes → Hashes
hash_set uid f h = λ u. if u == uid then f (h u) else h u

-- `HIncrBy` of both hashes, by one or by minus one.
unfoldable pub update_statics_info : Bool → (ℤ → ℤ) → ℕ → ℕ → Hashes → Option FollowError × Hashes
update_statics_info down delta follower followee h = if down then (some from_redis, h) else (
  none,
  hash_set followee (λ s. record s { follower_cnt = some (delta (field_or_zero s.follower_cnt)) })
      (hash_set follower
        (λ s. record s { followee_cnt = some (delta (field_or_zero s.followee_cnt)) }) h),
)

-- The cache's `StaticsInfo`: none where there is no field at all.
abbrev pub statics_of : Hash → Option Statics
statics_of s = elim s.follower_cnt [
  | none ↦ elim s.followee_cnt [
    | none ↦ none
    | some b ↦ some (record { followers = pos 0; followees = b })
  ]
  | some a ↦ some (record { followers = a; followees = field_or_zero s.followee_cnt })
]

unfoldable pub statics_info : Bool → ℕ → Hashes → Option Statics
statics_info down uid h = if down then none else statics_of (h uid)

unfoldable pub set_statics_info : Bool → ℕ → Statics → Hashes → Hashes
set_statics_info down uid s h =
    if down
    then h
    else hash_set uid
        (λ k. record { follower_cnt = some s.followers; followee_cnt = some s.followees }) h

unfoldable pub to_domain : FollowRelation → Relation
to_domain fr = record { followee = fr.followee; follower = fr.follower }

unfoldable pub to_entity : Relation → FollowRelation
to_entity c = record {
  id = 0;
  follower = c.follower;
  followee = c.followee;
  status = 0;
  ctime = 0;
  utime = 0;
}

-- The table is changed first, and the hashes only if that has returned nil.
abbrev then_cache :
    Option FollowError × List FollowRelation
    → (Hashes → Option FollowError × Hashes)
    → Store
    → Option FollowError × Store
then_cache (some e, rows) change s = (some e, record s { rows = rows })
then_cache (none, rows) change s =
    let (e, h) = change s.cached in (e, record { rows = rows; cached = h })

unfoldable pub add_follow_relation :
    Bool → Bool → ℕ → ℕ → Relation → Store → Option FollowError × Store
add_follow_relation fails down now new_id c s =
    then_cache (create_follow_relation fails now new_id (to_entity c) s.rows)
      (update_statics_info down increment c.follower c.followee) s

unfoldable pub inactive_follow_relation :
    Bool → Bool → Bool → ℕ → ℕ → ℕ → Store → Option FollowError × Store
inactive_follow_relation runs_untabled fails down now follower followee s =
    then_cache (update_status runs_untabled fails now followee follower status_inactive s.rows)
      (update_statics_info down decrement follower followee) s

-- The answers of the cache, and then of the two counts, one after the other.
abbrev pub statics_from :
    Bool → ℕ → Option Statics → Answer ℕ → Answer ℕ → Store → Answer Statics × Store
statics_from set_fails uid (some res) a b s = (found res, s)
statics_from set_fails uid none (failed e) b s = (failed e, s)
statics_from set_fails uid none (found a) (failed e) s = (failed e, s)
statics_from set_fails uid none (found a) (found b) s =
    let res : Statics = record { followers = pos a; followees = pos b } in
    (found res, record s { cached = set_statics_info set_fails uid res s.cached })

unfoldable pub get_follow_statics :
    Bool → Bool → Bool → Bool → Bool → ℕ → Store → Answer Statics × Store
get_follow_statics runs_untabled down fails fails' set_fails uid s =
    statics_from set_fails uid (statics_info down uid s.cached)
      (cnt_follower runs_untabled fails uid s.rows) (cnt_followee runs_untabled fails' uid s.rows) s

abbrev in_domain : Answer FollowRelation → Answer Relation
in_domain (found r) = found (to_domain r)
in_domain (failed e) = failed e

unfoldable pub get_followee : Bool → ℕ → ℕ → ℕ → Store → Answer (List Relation)
get_followee fails follower offset limit s =
    elim (follow_relation_list fails follower offset limit s.rows) [
      | found rs ↦ found (map to_domain rs)
      | failed e ↦ failed e
    ]

unfoldable pub follow_info : Bool → ℕ → ℕ → Store → Answer Relation
follow_info fails follower followee s =
    in_domain (follow_relation_detail fails follower followee s.rows)

-- The service's `Follow`
unfoldable pub follow : Bool → Bool → ℕ → ℕ → ℕ → ℕ → Store → Option FollowError × Store
follow fails down now new_id follower followee s =
    add_follow_relation fails down now new_id (record { followee = followee; follower = follower })
      s

-- The service's `CancelFollow`
unfoldable pub cancel_follow : Bool → Bool → Bool → ℕ → ℕ → ℕ → Store → Option FollowError × Store
cancel_follow runs_untabled fails down now follower followee s =
    inactive_follow_relation runs_untabled fails down now follower followee s
