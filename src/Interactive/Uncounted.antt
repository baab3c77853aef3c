-- ===== src/Interactive/Uncounted.antt =====
-- What a caller is told of a like, from webook/internal/client/intr.go to the tables.
use weishu.Base.{ap, ◌∙◌, ℕ, ◌≡◌, refl, Bool, true, false, some, Bool-cases, inl, inr, ltb}
use weishu.Base.Int.{ℤ}
use weishu.Interactive.Dao.{Collation, found, insert_like_info, delete_like_info, get_like_info}
use weishu.Interactive.Cache.{
  Field, Hashes, eval, incr_like_cnt_if_present, decr_like_cnt_if_present,
}
use weishu.Interactive.Counts.{like_info_follows}
use weishu.Interactive.Repository.{Store, from_redis, incr_like, decr_like, liked, is_there}
use weishu.Interactive.Calls.{
  client_like, client_cancel_like, server_like, adapter_like, service_like, server_cancel_like,
  adapter_cancel_like, service_cancel_like,
}
use weishu.Interactive.Service.{select_client}

module _ {Text : Type 0} (C : Collation Text) where
  client_like_lem :
      (t n : ℕ) (f g down : Bool) (now k new : ℕ) (biz : Text) (id uid : ℕ) (s : Store Text)
      → client_like C t n f g down now k new biz id uid s
        ≡ incr_like C f g down now k new biz id uid s
  unfolding client_like server_like adapter_like service_like select_client
  client_like_lem t n f g down now k new biz id uid s = elim (Bool-cases (ltb n t)) [
    | inl e ↦ rw (e, client_like) refl
    | inr e ↦ rw (e, client_like) refl
  ]

  client_cancel_like_lem :
      (t n : ℕ) (f g down : Bool) (now : ℕ) (biz : Text) (id uid : ℕ) (s : Store Text)
      → client_cancel_like C t n f g down now biz id uid s ≡ decr_like C f g down now biz id uid s
  unfolding client_cancel_like server_cancel_like adapter_cancel_like service_cancel_like
      select_client
  client_cancel_like_lem t n f g down now biz id uid s = elim (Bool-cases (ltb n t)) [
    | inl e ↦ rw (e, client_cancel_like) refl
    | inr e ↦ rw (e, client_cancel_like) refl
  ]

  eval_fails :
      (down : Bool) (biz : Text) (id : ℕ) (f : Field) (i : ℤ) (h : Hashes Text)
      → (eval C down biz id f i h).0 ≡ true
  eval_fails true biz id f i h = refl
  eval_fails false biz id f i h = refl

  incr_like_lem :
      (down : Bool) (now k new : ℕ) (biz : Text) (id uid : ℕ) (s : Store Text)
      → let (e, s') = incr_like C false false down now k new biz id uid s in
        (e ≡ some from_redis)
        × (s'.db ≡ (insert_like_info C false false now k new biz id uid s.db).1)
  unfolding incr_like insert_like_info incr_like_cnt_if_present
  incr_like_lem down now k new biz id uid s = (rw (eval_fails down biz id _ _ s.cached) refl, refl)

  decr_like_lem :
      (down : Bool) (now : ℕ) (biz : Text) (id uid : ℕ) (s : Store Text)
      → let (e, s') = decr_like C false false down now biz id uid s in
        (e ≡ some from_redis) × (s'.db ≡ (delete_like_info C false false now biz id uid s.db).1)
  unfolding decr_like delete_like_info decr_like_cnt_if_present
  decr_like_lem down now biz id uid s = (rw (eval_fails down biz id _ _ s.cached) refl, refl)

  -- A client whose like, or whose like that is taken back, meets no fault of the database is told an
  -- error of Redis, whether Redis answers or not, and yet the table holds the like, or holds it no more.
  -- The conditions say that the collation is an equivalence.
  pub client_like_fails :
      ((a : Text) → C.same a a ≡ true)
      → ((a b c : Text) → C.same a b ≡ true → C.same c a ≡ C.same c b)
      → ((a b c : Text) → C.same c a ≡ true → C.same c b ≡ true → C.same a b ≡ true)
      → (t n : ℕ) (down : Bool) (now k new : ℕ) (biz : Text) (id uid : ℕ) (s : Store Text)
      → let (e, s') = client_like C t n false false down now k new biz id uid s in
        let (e', s'') = client_cancel_like C t n false false down now biz id uid s in
        (e ≡ some from_redis)
        × (liked C false biz id uid s' ≡ found true)
        × (e' ≡ some from_redis)
        × (liked C false biz id uid s'' ≡ found false)
  unfolding liked
  client_like_fails same_refl same_left same_join t n down now k new biz id uid s =
      let ((r, holds, own), gone) =
        like_info_follows C same_refl same_left same_join now k new biz id uid s.db in
      let (refused, rows) = incr_like_lem down now k new biz id uid s in
      let (refused', rows') = decr_like_lem down now biz id uid s in
      let call = client_like_lem t n false false down now k new biz id uid s in
      let call' = client_cancel_like_lem t n false false down now biz id uid s in
      (
        ap (λ o. o.0) call ∙ refused,
        ap is_there (
            ap (λ o. get_like_info C false biz id uid o.1.db) call
            ∙ ap (get_like_info C false biz id uid) rows
            ∙ holds),
        ap (λ o. o.0) call' ∙ refused',
        ap is_there (
            ap (λ o. get_like_info C false biz id uid o.1.db) call'
            ∙ ap (get_like_info C false biz id uid) rows'
            ∙ gone),
      )
