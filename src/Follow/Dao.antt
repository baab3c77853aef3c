-- ===== src/Follow/Dao.antt =====
-- webook/follow/repository/dao/gorm.go and the row of types.go. A statement that meets a fault changes
-- nothing. `CntFollower`, `CntFollowee` and `UpdateStatus` name no model and no table; whether gorm
-- runs such a statement is the argument `runs_untabled`.
use weishu.Base.{
  ℕ, suc, Bool, ◌&&◌, Option, none, some, List, [], ◌∷◌, ◌==◌, if◌then◌else◌, take, drop,
}

pub record FollowRelation : Type 0 where
  pub id : ℕ
  pub follower : ℕ
  pub followee : ℕ
  pub status : ℕ
  pub ctime : ℕ
  pub utime : ℕ

abbrev pub status_active : ℕ
status_active = 1

abbrev pub status_inactive : ℕ
status_inactive = 2

pub data FollowError : Type 0 where
  database no_table record_not_found from_redis : FollowError

pub data Answer (A : Type 0) : Type 0 where
  found : A → Answer A
  failed : FollowError → Answer A

abbrev pub count_by : (FollowRelation → Bool) → List FollowRelation → ℕ
count_by p [] = 0
count_by p (r ∷ rows) = let rest = count_by p rows in if p r then suc rest else rest

abbrev pub filter_by : (FollowRelation → Bool) → List FollowRelation → List FollowRelation
filter_by p [] = []
filter_by p (r ∷ rows) = let rest = filter_by p rows in if p r then r ∷ rest else rest

abbrev pub find_by : (FollowRelation → Bool) → List FollowRelation → Option FollowRelation
find_by p [] = none
find_by p (r ∷ rows) = if p r then some r else find_by p rows

abbrev pub is_pair : ℕ → ℕ → FollowRelation → Bool
is_pair a b r = r.follower == a && r.followee == b

-- What becomes of a statement that names no table.
abbrev untabled : Bool → Bool → Option FollowError
untabled runs_untabled fails =
    if runs_untabled then (if fails then some database else none) else some no_table

abbrev answered : Option FollowError → ℕ → Answer ℕ
answered none n = found n
answered (some e) n = failed e

unfoldable pub cnt_follower : Bool → Bool → ℕ → List FollowRelation → Answer ℕ
cnt_follower runs_untabled fails uid rows =
    answered (untabled runs_untabled fails)
      (count_by (λ r. r.followee == uid && r.status == status_active) rows)

unfoldable pub cnt_followee : Bool → Bool → ℕ → List FollowRelation → Answer ℕ
cnt_followee runs_untabled fails uid rows =
    answered (untabled runs_untabled fails)
      (count_by (λ r. r.follower == uid && r.status == status_active) rows)

abbrev update_where :
    (FollowRelation → Bool)
    → (FollowRelation → FollowRelation)
    → List FollowRelation
    → List FollowRelation
update_where p f [] = []
update_where p f (r ∷ rows) = (if p r then f r else r) ∷ update_where p f rows

abbrev updated :
    Option FollowError
    → List FollowRelation
    → List FollowRelation
    → Option FollowError × List FollowRelation
updated none new rows = (none, new)
updated (some e) new rows = (some e, rows)

unfoldable pub update_status :
    Bool → Bool → ℕ → ℕ → ℕ → ℕ → List FollowRelation → Option FollowError × List FollowRelation
update_status runs_untabled fails now followee follower status rows =
    updated (untabled runs_untabled fails)
      (update_where (is_pair follower followee) (λ r. record r { status = status; utime = now })
        rows)
      rows

unfoldable pub follow_relation_list :
    Bool → ℕ → ℕ → ℕ → List FollowRelation → Answer (List FollowRelation)
follow_relation_list fails follower offset limit rows =
    if fails
    then failed database
    else found (
        take limit
          (drop offset (filter_by (λ r. r.follower == follower && r.status == status_active) rows)))

unfoldable pub follow_relation_detail : Bool → ℕ → ℕ → List FollowRelation → Answer FollowRelation
follow_relation_detail fails follower followee rows =
    if fails
    then failed database
    else elim (find_by (λ r. is_pair follower followee r && r.status == status_active) rows) [
      | none ↦ failed record_not_found
      | some r ↦ found r
    ]

-- `INSERT … ON DUPLICATE KEY UPDATE`; the key is the pair.
abbrev pub upsert :
    (FollowRelation → FollowRelation) → FollowRelation → List FollowRelation → List FollowRelation
upsert f new [] = new ∷ []
upsert f new (r ∷ rows) =
    if is_pair new.follower new.followee r then f r ∷ rows else r ∷ upsert f new rows

unfoldable pub create_follow_relation :
    Bool → ℕ → ℕ → FollowRelation → List FollowRelation → Option FollowError × List FollowRelation
create_follow_relation fails now new_id f rows = if fails then (some database, rows) else (
  none,
  upsert (λ r. record r { utime = now; status = status_active })
      (record f { id = new_id; utime = now; ctime = now; status = status_active }) rows,
)
