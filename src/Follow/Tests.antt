-- ===== src/Follow/Tests.antt =====
-- Runs on a small store, and the theorems at concrete inputs.
use weishu.Base.{◌≡◌, refl, true, false, some, none, List, [], ◌∷◌, arith}
use weishu.Base.Int.{pos}
use weishu.Follow.Dao.{
  record_not_found, found, failed, count_by, is_pair, create_follow_relation, update_status,
  cnt_follower, follow_relation_list, follow_relation_detail,
}
use weishu.Follow.Repository.{
  statics_of, update_statics_info, to_entity, to_domain, add_follow_relation,
  inactive_follow_relation, get_follow_statics, get_followee, follow_info, follow,
}
use weishu.Follow.Calls.{Call, follow_all, empty, statics-follow_all}

-- 1 follows 2 twice, and 3 follows 2.
abbrev calls : List Call
calls =
    record { now = 1; new_id = 1; follower = 1; followee = 2 }
    ∷ record { now = 2; new_id = 2; follower = 1; followee = 2 }
    ∷ record { now = 3; new_id = 3; follower = 3; followee = 2 }
    ∷ []

statics-follow_all_example :
    ((get_follow_statics true false false false false 2 (follow_all calls empty)).0
      ≡ found (record { followers = pos 3; followees = pos 0 }))
    × (count_by (is_pair 1 2) (follow_all calls empty).rows ≡ 1)
statics-follow_all_example = statics-follow_all calls 2 1 2 true false false false (omega arith)

no_hash : statics_of ((follow_all calls empty).cached 9) ≡ none
unfolding follow add_follow_relation create_follow_relation update_statics_info to_entity
no_hash = refl

-- Where gorm runs the statement, a follow that is taken back is no longer found, nor listed.
taken_back :
    let s = (inactive_follow_relation true false false 4 1 2 (follow_all calls empty)).1 in
    (follow_info false 1 2 s ≡ failed record_not_found)
    × (get_followee false 1 0 10 s ≡ found [])
    × (get_followee false 3 0 10 s ≡ found (record { followee = 2; follower = 3 } ∷ []))
    × (cnt_follower true false 2 s.rows ≡ found 1)
    × ((s.cached 2).follower_cnt ≡ some (pos 2))
unfolding follow add_follow_relation create_follow_relation update_statics_info to_entity
    inactive_follow_relation update_status follow_info get_followee follow_relation_list
    follow_relation_detail to_domain cnt_follower
taken_back = (refl, refl, refl, refl, refl)
