-- ===== src/Users/FirstVisit.antt =====
-- Accounts that are made at the first visit: `FindOrCrete` and `FindOrCrateByWechat` of
-- webook/internal/service/user.go.
use weishu.Base.{
  ap, sym, ◌∙◌, inl, inr, Option-cases, ℕ, ◌≡◌, refl, Bool, true, false, ◌||◌, none, some, [], ◌∷◌,
  ◌++◌, arith, ◌==◌,
}
use weishu.Users.Dao.{
  Texts, User, duplicate_email, record_not_found, found, failed, is_text, conflicts, any, find_by,
  new_row, find_by_phone, find_by_wechat,
}
use weishu.Users.Repository.{
  Store, entity_to_domain, domain_to_entity, create, with_phone, with_wechat,
}
use weishu.Users.Service.{no_account, find_or_crete, find_or_crate_by_wechat}
use weishu.Users.Rows.{
  find_by-append, any-append, any-weaken, any-or, find_by-none, any-none, find_by-true,
  any-strengthen, any-append_false,
}
use weishu.Users.Accounts.{insert-free, insert-taken}

module _ {Text : Type 0} (X : Texts Text) (blank : X.is_no_text X.no_text ≡ true) where
  -- The row of a user of whom nothing but a phone is known.
  abbrev pub phone_row : ℕ → ℕ → Text → User Text
  phone_row now new_id phone =
      new_row X now new_id (domain_to_entity X (record (no_account X) { phone = phone }))

  abbrev pub has_id : ℕ → User Text → Bool
  has_id id r = r.id == id

  phone_conflicts :
      (now new_id : ℕ) (phone : Text) (r : User Text)
      → X.is_no_text phone ≡ false
      → conflicts X (phone_row now new_id phone) r ≡ (r.id == new_id || is_text X phone r.phone)
  unfolding domain_to_entity
  phone_conflicts now new_id phone r h = rw (h, blank) (ground arith)

  create-phone :
      (now new_id : ℕ) (phone : Text) (s : Store Text)
      → X.is_no_text phone ≡ false
      → any X (has_id new_id) s.rows ≡ false
      → any X (λ r. is_text X phone r.phone) s.rows ≡ false
      → create X false now new_id (record (no_account X) { phone = phone }) s
        ≡ (none, record s { rows = s.rows ++ (phone_row now new_id phone ∷ []) })
  unfolding create
  create-phone now new_id phone s filled fresh free =
      ap (λ o. (o.0, record s { rows = o.1 }))
        (insert-free X now new_id (domain_to_entity X (record (no_account X) { phone = phone }))
          s.rows
          (any-weaken X (conflicts X (phone_row now new_id phone))
            (λ r. r.id == new_id || is_text X phone r.phone) s.rows
            (λ r h. sym (phone_conflicts now new_id phone r filled) ∙ h)
            (any-or X (has_id new_id) (λ r. is_text X phone r.phone) s.rows fresh free)))

  create-taken :
      (now new_id : ℕ) (phone : Text) (s : Store Text)
      → X.is_no_text phone ≡ false
      → any X (λ r. is_text X phone r.phone) s.rows ≡ true
      → create X false now new_id (record (no_account X) { phone = phone }) s
        ≡ (some duplicate_email, s)
  unfolding create
  create-taken now new_id phone s filled taken =
      ap (λ o. (o.0, record s { rows = o.1 }))
        (insert-taken X now new_id (domain_to_entity X (record (no_account X) { phone = phone }))
          s.rows
          (any-strengthen X (λ r. is_text X phone r.phone)
            (conflicts X (phone_row now new_id phone)) s.rows
            (λ r h. phone_conflicts now new_id phone r filled ∙ ground (arith, h)) taken))

  phone_row_lem :
      (now new_id : ℕ) (phone : Text)
      → X.same phone phone ≡ true
      → X.is_no_text phone ≡ false
      → is_text X phone (phone_row now new_id phone).phone ≡ true
  unfolding domain_to_entity
  phone_row_lem now new_id phone same filled = rw filled same

  wechat_none :
      (now new_id : ℕ) (phone open_id : Text)
      → is_text X open_id (phone_row now new_id phone).wechat_open_id ≡ false
  unfolding domain_to_entity
  wechat_none now new_id phone open_id = rw blank refl

  -- `FindOrCrete` for a phone, when no statement fails and the key of a new row is new, finds an account
  -- with that phone, and at the next call, with any key, the same account, which changes nothing more. The
  -- conditions are that the phone is not empty and equals itself.
  pub find_or_crete-again :
      (now new_id : ℕ) (phone : Text) (s : Store Text)
      → X.same phone phone ≡ true
      → X.is_no_text phone ≡ false
      → any X (has_id new_id) s.rows ≡ false
      → (now' new_id' : ℕ)
      → let s' = (find_or_crete X false false false now new_id phone s).1 in
        (r : User Text) × (is_text X phone r.phone ≡ true)
        × (find_or_crete X false false false now new_id phone s
            ≡ (found (entity_to_domain X r), s'))
        × (find_or_crete X false false false now' new_id' phone s'
            ≡ (found (entity_to_domain X r), s'))
  unfolding find_or_crete with_phone find_by_phone
  find_or_crete-again now new_id phone s same filled fresh now' new_id' =
      elim (Option-cases (find_by X (λ r. is_text X phone r.phone) s.rows)) [
        | inr (r, at) ↦ (
          r,
          find_by-true X (λ r. is_text X phone r.phone) s.rows r at,
          rw at refl,
          rw (at, at) refl,
        )
        | inl e ↦
            let row = phone_row now new_id phone in
            let free = find_by-none X (λ r. is_text X phone r.phone) s.rows e in
            let made = create-phone now new_id phone s filled fresh free in
            let mine : is_text X phone row.phone ≡ true =
              phone_row_lem now new_id phone same filled in
            let seen = find_by-append X (λ r. is_text X phone r.phone) s.rows row free mine in
            (row, mine, rw (e, made, seen) refl, rw (e, made, seen) refl)
      ]

  -- `FindOrCrateByWechat` for an open id that is not empty, equals itself, and stands in no row, neither
  -- as an open id nor as a phone: when no statement fails and the key of a new row is new, it writes a row
  -- and returns that the user is not found, and at the next call, with any key, the error of the email.
  pub find_or_crate_by_wechat_fails :
      (now new_id : ℕ) (open_id : Text) (s : Store Text)
      → X.same open_id open_id ≡ true
      → X.is_no_text open_id ≡ false
      → any X (has_id new_id) s.rows ≡ false
      → any X (λ r. is_text X open_id r.phone) s.rows ≡ false
      → any X (λ r. is_text X open_id r.wechat_open_id) s.rows ≡ false
      → (now' new_id' : ℕ)
      → let s' = record s { rows = s.rows ++ (phone_row now new_id open_id ∷ []) } in
        (find_or_crate_by_wechat X false false false now new_id open_id s
          ≡ (failed record_not_found, s'))
        × (find_or_crate_by_wechat X false false false now' new_id' open_id s'
            ≡ (failed duplicate_email, s'))
  unfolding find_or_crate_by_wechat with_wechat find_by_wechat
  find_or_crate_by_wechat_fails now new_id open_id s same filled fresh free unknown now' new_id' =
      let row = phone_row now new_id open_id in
      let s' = record s { rows = s.rows ++ (row ∷ []) } in
      let here = λ (r : User Text). is_text X open_id r.wechat_open_id in
      let before = any-none X here s.rows unknown in
      let after =
        any-none X here s'.rows
          (any-append_false X here s.rows row unknown (wechat_none now new_id open_id open_id)) in
      let made = create-phone now new_id open_id s filled fresh free in
      let again = create-taken now' new_id' open_id s' filled (
        any-append X (λ r. is_text X open_id r.phone) s.rows row
          (phone_row_lem now new_id open_id same filled)) in
      (rw (before, made, after) refl, rw (after, again) refl)
