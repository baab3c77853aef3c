-- ===== src/Interactive/Counts.antt =====
-- What the counts of webook/interactive/repository/dao/interactive.go count.
use weishu.Base.{
  ap, ◌∙◌, inl, inr, Bool-cases, ℕ, suc, ◌+◌, ◌≡◌, refl, Bool, true, false, ◌&&◌, Option, none,
  some, List, [], ◌∷◌, arith, ◌==◌, if◌then◌else◌, length, returns,
}
use weishu.Interactive.Dao.{
  UserLikeBiz, Interactive, Tables, Collation, record_not_found, found, failed, find_by, upsert,
  update_where, is_at, likes_it, incr_read_cnt, batch_incr_read_cnt, insert_like_info,
  delete_like_info, get_like_info,
}

module _ {A : Type 0} where
  pub find-upsert :
      (p q : A → Bool) (f : A → A) (new : A) (rows : List A)
      → ((r : A) → q r ≡ p r)
      → ((r : A) → p (f r) ≡ p r)
      → p new ≡ true
      → find_by q (upsert p f new rows) ≡ some (elim (find_by q rows) [ none ↦ new | some r ↦ f r ])
  find-upsert p q f new [] e k n = let n' : q new ≡ true = e new ∙ n in rw n' refl
  find-upsert p q f new (r ∷ rows) e k n = elim (Bool-cases (p r)) [
    | inl h ↦
        let h' : q r ≡ true = e r ∙ h in
        let h'' : q (f r) ≡ true = e (f r) ∙ k r ∙ h in rw (h, h', h'') refl
    | inr h ↦ let h' : q r ≡ false = e r ∙ h in rw (h, h') (find-upsert p q f new rows e k n)
  ]

  pub find-upsert_other :
      (p q : A → Bool) (f : A → A) (new : A) (rows : List A)
      → ((r : A) → p r ≡ true → q r ≡ false)
      → ((r : A) → q (f r) ≡ q r)
      → q new ≡ false
      → find_by q (upsert p f new rows) ≡ find_by q rows
  find-upsert_other p q f new [] e k n = rw n refl
  find-upsert_other p q f new (r ∷ rows) e k n = elim (Bool-cases (p r)) [
    | inl h ↦
        let h' : q r ≡ false = e r h in let h'' : q (f r) ≡ false = k r ∙ h' in rw (h, h', h'') refl
    | inr h ↦ elim (Bool-cases (q r)) [
      | inl g ↦ rw (h, g) refl
      | inr g ↦ rw (h, g) (find-upsert_other p q f new rows e k n)
    ]
  ]

  find-update_where :
      (p q : A → Bool) (f : A → A) (rows : List A)
      → ((r : A) → p r ≡ true → q (f r) ≡ false)
      → ((r : A) → p r ≡ false → q r ≡ false)
      → find_by q (update_where p f rows) ≡ none
  find-update_where p q f [] e k = refl
  find-update_where p q f (r ∷ rows) e k = elim (Bool-cases (p r)) [
    | inl h ↦ let h' : q (f r) ≡ false = e r h in rw (h, h') (find-update_where p q f rows e k)
    | inr h ↦ let h' : q r ≡ false = k r h in rw (h, h') (find-update_where p q f rows e k)
  ]

  find-upsert_found :
      (p q : A → Bool) (f : A → A) (new : A) (rows : List A)
      → ((r : A) → p r ≡ true → q (f r) ≡ true)
      → ((r : A) → p r ≡ false → q r ≡ false)
      → q new ≡ true
      → (r : A) × (find_by q (upsert p f new rows) ≡ some r) × (q r ≡ true)
  find-upsert_found p q f new [] e k n = (new, rw n refl, n)
  find-upsert_found p q f new (r ∷ rows) e k n = elim (Bool-cases (p r)) [
    | inl h ↦ let h' : q (f r) ≡ true = e r h in (f r, rw (h, h') refl, h')
    | inr h ↦
        let h' : q r ≡ false = k r h in
        let (x, at, y) = find-upsert_found p q f new rows e k n in (x, rw (h, h') at, y)
  ]

module _ {Text : Type 0} (C : Collation Text) where
  -- What `Get` shows as the number of reads.
  abbrev pub reads : Text → ℕ → List (Interactive Text) → ℕ
  reads biz id rows = elim (find_by (is_at C biz id) rows) [ none ↦ 0 | some r ↦ r.read_cnt ]

  -- How often two lists name a thing together.
  abbrev pub occurrences : Text → ℕ → List Text → List ℕ → ℕ
  occurrences biz id [] is = 0
  occurrences biz id (b ∷ bs) [] = 0
  occurrences biz id (b ∷ bs) (i ∷ is) =
      (if C.same b biz && i == id then 1 else 0) + occurrences biz id bs is

module _ {Text : Type 0} (C : Collation Text) (same_refl : (a : Text) → C.same a a ≡ true)
    (same_left : (a b c : Text) → C.same a b ≡ true → C.same c a ≡ C.same c b)
    (same_join : (a b c : Text) → C.same c a ≡ true → C.same c b ≡ true → C.same a b ≡ true) where
  same_key :
      (biz biz' : Text) (id id' : ℕ) (r : Interactive Text)
      → (C.same biz biz' && id == id') ≡ true
      → is_at C biz' id' r ≡ is_at C biz id r
  same_key biz biz' id id' r h =
      let texts : C.same biz biz' ≡ true = ground arith in
      let ids : id ≡ id' = ground arith in ground (arith, same_left biz biz' r.biz texts, ids)

  other_key :
      (biz biz' : Text) (id id' : ℕ) (r : Interactive Text)
      → (C.same biz biz' && id == id') ≡ false
      → is_at C biz id r ≡ true
      → is_at C biz' id' r ≡ false
  other_key biz biz' id id' r h p = elim (Bool-cases (C.same r.biz biz')) [
    | inl e ↦
        let texts : C.same biz biz' ≡ true = same_join biz biz' r.biz (ground arith) e in
        let ids : (id == id') ≡ false = rw texts at h in
        let at : (r.biz_id == id) ≡ true = ground arith in
        let off : (r.biz_id == id') ≡ false = ground arith in rw (e, off) refl
    | inr e ↦ rw e refl
  ]

  read_once : ℕ → Interactive Text → Interactive Text
  read_once now r = record r { read_cnt = r.read_cnt + 1; utime = now }

  counted : Option (Interactive Text) → ℕ
  counted o = elim o [ none ↦ 0 | some r ↦ r.read_cnt ]

  counted_next :
      (now : ℕ) (new : Interactive Text) (o : Option (Interactive Text))
      → new.read_cnt ≡ 1
      → counted (some (elim o [ none ↦ new | some r ↦ read_once now r ])) ≡ counted o + 1
  unfolding counted read_once
  counted_next now new none e = e ∙ omega arith
  counted_next now new (some r) e = refl

  reads-incr_read_cnt :
      (now new_id : ℕ) (biz biz' : Text) (id id' : ℕ) (rows : List (Interactive Text))
      → reads C biz' id' (incr_read_cnt C false now new_id biz id rows).1
        ≡ (if C.same biz biz' && id == id' then 1 else 0) + reads C biz' id' rows
  unfolding incr_read_cnt read_once counted
  reads-incr_read_cnt now new_id biz biz' id id' rows =
      elim (Bool-cases (C.same biz biz' && id == id')) [
        | inl h ↦
            let own : (C.same biz biz && id == id) ≡ true = ground (arith, same_refl biz) in
            rw h (
              ap counted (
                find-upsert (is_at C biz id) (is_at C biz' id') (read_once now) _ rows
                  (λ r. same_key biz biz' id id' r h) (λ r. refl) own)
              ∙ counted_next now _ (find_by (is_at C biz' id') rows) refl
              ∙ omega arith)
        | inr h ↦ rw h (
            ap counted (
              find-upsert_other (is_at C biz id) (is_at C biz' id') (read_once now) _ rows
                (λ r. other_key biz biz' id id' r h) (λ r. refl) h)
            ∙ omega arith)
      ]

  -- When no statement fails, and there are as many ids as names, `BatchIncrReadCnt` returns nil, and
  -- the reads of every thing grow by the number of times that the lists name it.
  pub reads-batch_incr_read_cnt :
      (now i : ℕ) (new_id : ℕ → ℕ) (bizs : List Text) (ids : List ℕ) (biz : Text) (id : ℕ)
      (rows : List (Interactive Text))
      → length bizs ≡ length ids
      → let (e, rows') = batch_incr_read_cnt C (λ k. false) now new_id i bizs ids rows in
        (e ≡ returns none)
        × (reads C biz id rows' ≡ occurrences C biz id bizs ids + reads C biz id rows)
  unfolding batch_incr_read_cnt incr_read_cnt
  reads-batch_incr_read_cnt now i new_id [] ids biz id rows h = (refl, omega arith)
  reads-batch_incr_read_cnt now i new_id (b ∷ bs) [] biz id rows h = absurd (omega arith)
  reads-batch_incr_read_cnt now i new_id (b ∷ bs) (j ∷ js) biz id rows h =
      let rows' = (incr_read_cnt C false now (new_id i) b j rows).1 in
      let (done, more) =
        reads-batch_incr_read_cnt now (suc i) new_id bs js biz id rows' (omega (arith, h)) in
      (done, omega (arith, more, reads-incr_read_cnt now (new_id i) b biz j id rows))

  -- After a like that does not fail, `GetLikeInfo` finds a like of that user; after one that is taken
  -- back without a fault, it finds none.
  pub like_info_follows :
      (now like_id new_id : ℕ) (biz : Text) (id uid : ℕ) (d : Tables Text)
      → let liking = (insert_like_info C false false now like_id new_id biz id uid d).1 in
        let unliking = (delete_like_info C false false now biz id uid d).1 in
        ((r : UserLikeBiz Text) × (get_like_info C false biz id uid liking ≡ found r)
          × ((likes_it C biz id uid r && r.status == 1) ≡ true))
        × (get_like_info C false biz id uid unliking ≡ failed record_not_found)
  unfolding insert_like_info delete_like_info get_like_info
  like_info_follows now like_id new_id biz id uid d =
      let new : UserLikeBiz Text = record {
        id = like_id;
        uid = uid;
        biz_id = id;
        biz = biz;
        status = 1;
        utime = now;
        ctime = now;
      } in
      let own : (likes_it C biz id uid new && new.status == 1) ≡ true =
        ground (arith, same_refl biz) in
      let (r, at, ok) =
        find-upsert_found (likes_it C biz id uid) (λ r. likes_it C biz id uid r && r.status == 1)
          (λ r. record r { utime = now; status = 1 }) new d.likes (λ r h. ap (λ b. b && true) h)
          (λ r h. ap (λ b. b && r.status == 1) h) own in
      let gone =
        find-update_where (likes_it C biz id uid) (λ r. likes_it C biz id uid r && r.status == 1)
          (λ r. record r { utime = now; status = 0 }) d.likes (λ r h. ap (λ b. b && false) h)
          (λ r h. ap (λ b. b && r.status == 1) h) in
      ((r, rw at refl, ok), rw gone refl)
