-- ===== src/Follow/Calls.antt =====
-- What calls of `Follow` leave in the table and in the hashes of webook/follow.
use native.Mathlib.Nat.{add-zero}
use weishu.Base.{
  ap, sym, ◌∙◌, inl, inr, Bool-cases, ℕ, zero, suc, ◌+◌, ◌≤◌, ◌≡◌, refl, Bool, true, false, ◌&&◌,
  ◌||◌, Option, none, some, List, [], ◌∷◌, arith, ◌==◌, if◌then◌else◌,
}
use weishu.Base.Int.{ℤ, pos, increment}
use weishu.Follow.Dao.{
  FollowRelation, status_active, count_by, is_pair, upsert, create_follow_relation, found, failed,
  no_table, update_status, cnt_follower, cnt_followee,
}
use weishu.Follow.Repository.{
  Hash, Store, field_or_zero, update_statics_info, statics_of, statics_info, to_entity,
  add_follow_relation, get_follow_statics, inactive_follow_relation, follow,
}

pub record Call : Type 0 where
  pub now : ℕ
  pub new_id : ℕ
  pub follower : ℕ
  pub followee : ℕ

-- Calls one after another, none of which meets a fault.
abbrev pub follow_all : List Call → Store → Store
follow_all [] s = s
follow_all (c ∷ cs) s = follow_all cs (follow false false c.now c.new_id c.follower c.followee s).1

abbrev pub calls_of : ℕ → List Call → ℕ
calls_of u [] = 0
calls_of u (c ∷ cs) = (if u == c.follower then 1 else 0) + calls_of u cs

abbrev pub calls_for : ℕ → List Call → ℕ
calls_for u [] = 0
calls_for u (c ∷ cs) = (if u == c.followee then 1 else 0) + calls_for u cs

abbrev pub is_called : ℕ → ℕ → List Call → Bool
is_called a b [] = false
is_called a b (c ∷ cs) = (c.follower == a && c.followee == b) || is_called a b cs

abbrev tally : ℕ → Option ℤ
tally n = elim n [ zero ↦ none | suc m ↦ some (pos (suc m)) ]

increment-tally : (n : ℕ) → some (increment (field_or_zero (tally n))) ≡ tally (1 + n)
increment-tally zero = refl
increment-tally (suc n) = let e : suc (suc n) ≡ 1 + suc n = omega arith in ap tally e

follower_cnt-follow :
    (c : Call) (s : Store) (u n : ℕ)
    → (s.cached u).follower_cnt ≡ tally n
    → ((follow false false c.now c.new_id c.follower c.followee s).1.cached u).follower_cnt
      ≡ tally ((if u == c.followee then 1 else 0) + n)
unfolding follow add_follow_relation create_follow_relation update_statics_info to_entity
follower_cnt-follow c s u n h = elim (Bool-cases (u == c.followee)) [
  | inl e ↦ elim (Bool-cases (u == c.follower)) [
    | inl g ↦ rw (e, g, h) (increment-tally n)
    | inr g ↦ rw (e, g, h) (increment-tally n)
  ]
  | inr e ↦ elim (Bool-cases (u == c.follower)) [
    | inl g ↦ rw (e, g, h) (ap tally (omega arith))
    | inr g ↦ rw (e, g, h) (ap tally (omega arith))
  ]
]

same_pair :
    (a b : ℕ) (new r : FollowRelation)
    → is_pair new.follower new.followee r ≡ true
    → is_pair a b r ≡ is_pair a b new
same_pair a b new r h =
    let one : r.follower ≡ new.follower = ground arith in
    let two : r.followee ≡ new.followee = ground arith in
    ap (λ n. n == a && r.followee == b) one ∙ ap (λ n. new.follower == a && n == b) two

other_pair :
    (a b : ℕ) (new r : FollowRelation)
    → is_pair new.follower new.followee r ≡ false
    → is_pair a b new ≡ true
    → is_pair a b r ≡ false
other_pair a b new r h k =
    let one : new.follower ≡ a = ground arith in
    let two : new.followee ≡ b = ground arith in
    ap (λ n. r.follower == n && r.followee == b) (sym one)
    ∙ ap (λ n. r.follower == new.follower && r.followee == n) (sym two)
    ∙ h

count_by-upsert :
    (a b : ℕ) (f : FollowRelation → FollowRelation) (new : FollowRelation)
    (rows : List FollowRelation)
    → ((r : FollowRelation) → is_pair a b (f r) ≡ is_pair a b r)
    → count_by (is_pair a b) rows ≤ 1
    → count_by (is_pair a b) (upsert f new rows)
      ≡ (if is_pair a b new then 1 else count_by (is_pair a b) rows)
count_by-upsert a b f new [] k h = refl
count_by-upsert a b f new (r ∷ rows) k h = elim (Bool-cases (is_pair new.follower new.followee r)) [
  | inl e ↦ elim (Bool-cases (is_pair a b new)) [
    | inl g ↦
        let g' : is_pair a b r ≡ true = same_pair a b new r e ∙ g in
        let g'' : is_pair a b (f r) ≡ true = k r ∙ g' in
        let few : suc (count_by (is_pair a b) rows) ≤ 1 = rw g' at h in rw (e, g'', g) (omega arith)
    | inr g ↦
        let g' : is_pair a b r ≡ false = same_pair a b new r e ∙ g in
        let g'' : is_pair a b (f r) ≡ false = k r ∙ g' in rw (e, g'', g', g) refl
  ]
  | inr e ↦ elim (Bool-cases (is_pair a b r)) [
    | inl g ↦
        let few : suc (count_by (is_pair a b) rows) ≤ 1 = rw g at h in
        let rest = count_by-upsert a b f new rows k (omega (arith, few)) in
        elim (Bool-cases (is_pair a b new)) [
          | inl n ↦ let no : true ≡ false = sym g ∙ other_pair a b new r e n in ground arith
          | inr n ↦
              let rest' : count_by (is_pair a b) (upsert f new rows) ≡ count_by (is_pair a b) rows =
                rw n at rest in
              rw (e, g, n) (ap suc rest')
        ]
    | inr g ↦
        let few : count_by (is_pair a b) rows ≤ 1 = rw g at h in
        rw (e, g) (count_by-upsert a b f new rows k few)
  ]
]

followee_cnt-follow :
    (c : Call) (s : Store) (u n : ℕ)
    → (s.cached u).followee_cnt ≡ tally n
    → ((follow false false c.now c.new_id c.follower c.followee s).1.cached u).followee_cnt
      ≡ tally ((if u == c.follower then 1 else 0) + n)
unfolding follow add_follow_relation create_follow_relation update_statics_info to_entity
followee_cnt-follow c s u n h = elim (Bool-cases (u == c.followee)) [
  | inl e ↦ elim (Bool-cases (u == c.follower)) [
    | inl g ↦ rw (e, g, h) (increment-tally n)
    | inr g ↦ rw (e, g, h) (ap tally (omega arith))
  ]
  | inr e ↦ elim (Bool-cases (u == c.follower)) [
    | inl g ↦ rw (e, g, h) (increment-tally n)
    | inr g ↦ rw (e, g, h) (ap tally (omega arith))
  ]
]

hashes-follow_all :
    (cs : List Call) (s : Store) (u m n : ℕ)
    → (s.cached u).follower_cnt ≡ tally m
    → (s.cached u).followee_cnt ≡ tally n
    → let h = (follow_all cs s).cached u in
      (h.follower_cnt ≡ tally (calls_for u cs + m)) × (h.followee_cnt ≡ tally (calls_of u cs + n))
hashes-follow_all [] s u m n h k = (h ∙ ap tally (omega arith), k ∙ ap tally (omega arith))
hashes-follow_all (c ∷ cs) s u m n h k =
    let (x, y) =
      hashes-follow_all cs _ u _ _ (follower_cnt-follow c s u m h)
        (followee_cnt-follow c s u n k) in
    (x ∙ ap tally (omega arith), y ∙ ap tally (omega arith))

one_or :
    (x y : Bool) (m n : ℕ)
    → m ≡ (if x then 1 else n)
    → (if y then 1 else m) ≡ (if x || y then 1 else n)
one_or true true m n h = refl
one_or true false m n h = h
one_or false true m n h = refl
one_or false false m n h = h

rows-follow_all :
    (cs : List Call) (s : Store) (a b : ℕ)
    → count_by (is_pair a b) s.rows ≤ 1
    → count_by (is_pair a b) (follow_all cs s).rows
      ≡ (if is_called a b cs then 1 else count_by (is_pair a b) s.rows)
unfolding follow add_follow_relation create_follow_relation to_entity
rows-follow_all [] s a b h = refl
rows-follow_all (c ∷ cs) s a b h =
    let s' = (follow false false c.now c.new_id c.follower c.followee s).1 in
    let once : count_by (is_pair a b) s'.rows
        ≡ (if c.follower == a && c.followee == b then 1 else count_by (is_pair a b) s.rows) =
      count_by-upsert a b (λ r. record r { utime = c.now; status = status_active }) _ s.rows
        (λ r. refl) h in
    let few : count_by (is_pair a b) s'.rows ≤ 1 = ground (arith, once) in
    let rest = rows-follow_all cs s' a b few in
    rest ∙ one_or (c.follower == a && c.followee == b) (is_called a b cs) _ _ once

statics_lem :
    (h : Hash) (m n : ℕ)
    → h.follower_cnt ≡ tally m
    → h.followee_cnt ≡ tally n
    → 1 ≤ m + n
    → statics_of h ≡ some (record { followers = pos m; followees = pos n })
statics_lem h zero zero e g k = absurd (omega arith)
statics_lem h zero (suc n) e g k = rw (e, g) refl
statics_lem h (suc m) zero e g k = rw (e, g) refl
statics_lem h (suc m) (suc n) e g k = rw (e, g) refl

abbrev pub empty : Store
empty = record { rows = []; cached = λ u. record { follower_cnt = none; followee_cnt = none } }

-- After calls of `Follow` on an empty table and an empty cache, none of which meets a fault, the table
-- has one row for each pair that was named and none for another, but the statics of a user who was named
-- count every call: repeated calls for one pair are counted each time. This holds whatever gorm does with
-- a statement without a table, and whatever the database does later.
pub statics-follow_all :
    (cs : List Call) (u a b : ℕ) (runs_untabled fails second_fails set_fails : Bool)
    → 1 ≤ calls_for u cs + calls_of u cs
    → let s = follow_all cs empty in
      ((get_follow_statics runs_untabled false fails second_fails set_fails u s).0
        ≡ found (record { followers = pos (calls_for u cs); followees = pos (calls_of u cs) }))
      × (count_by (is_pair a b) s.rows ≡ (if is_called a b cs then 1 else 0))
unfolding get_follow_statics statics_info
statics-follow_all cs u a b runs_untabled fails second_fails set_fails h =
    let s = follow_all cs empty in
    let (x, y) = hashes-follow_all cs empty u 0 0 refl refl in
    let seen : statics_of (s.cached u)
        ≡ some (record { followers = pos (calls_for u cs); followees = pos (calls_of u cs) }) =
      statics_lem (s.cached u) (calls_for u cs) (calls_of u cs)
        (x ∙ ap tally (add-zero (calls_for u cs))) (y ∙ ap tally (add-zero (calls_of u cs))) h in
    (rw seen refl, rows-follow_all cs empty a b (omega arith))

-- If gorm refuses a statement without a table, then, for a follower without a hash and whatever the
-- table holds, `InactiveFollowRelation` and `GetFollowStatics` return that error and change nothing.
pub untabled_fail :
    (fails second_fails down set_fails : Bool) (now follower followee : ℕ) (s : Store)
    → statics_of (s.cached follower) ≡ none
    → (inactive_follow_relation false fails down now follower followee s ≡ (some no_table, s))
      × (get_follow_statics false down fails second_fails set_fails follower s
          ≡ (failed no_table, s))
unfolding inactive_follow_relation update_status get_follow_statics statics_info cnt_follower
    cnt_followee
untabled_fail fails second_fails down set_fails now follower followee s h =
    (refl, elim (Bool-cases down) [ inl e ↦ rw e refl | inr e ↦ rw (e, h) refl ])
