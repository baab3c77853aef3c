-- ===== src/Users/Login.antt =====
-- Signing up and logging in: webook/internal/service/user.go.
use weishu.Base.{
  ap, sym, ◌∙◌, ℕ, ◌≡◌, refl, Bool, true, false, none, some, List, [], ◌∷◌, ◌++◌, arith,
}
use weishu.Users.Dao.{
  Texts, User, duplicate_email, found, is_text, conflicts, any, new_row, find_by_email,
}
use weishu.Users.Repository.{Account, Store, entity_to_domain, domain_to_entity, create, with_email}
use weishu.Users.Service.{Bcrypt, sign_up, login}
use weishu.Users.Rows.{find_by-append, any-append, any-weaken}
use weishu.Users.Accounts.{inserted, insert-taken}

module _ {Text : Type 0} (X : Texts Text) (B : Bcrypt Text) where
  -- The row that `SignUp` writes.
  abbrev pub signed_up : ℕ → ℕ → Text → Account Text → User Text
  signed_up now new_id hash u =
      new_row X now new_id (domain_to_entity X (record u { password = hash }))

  sign_up_lem :
      (fails : Bool) (salt now new_id : ℕ) (u : Account Text) (hash : Text) (s : Store Text)
      → B.generate salt u.password ≡ some hash
      → sign_up X B fails salt now new_id u s
        ≡ create X fails now new_id (record u { password = hash }) s
  unfolding sign_up
  sign_up_lem fails salt now new_id u hash s h = rw (h, sign_up) refl

  email_conflicts :
      (now new_id : ℕ) (hash : Text) (u : Account Text) (r : User Text)
      → X.is_no_text u.email ≡ false
      → is_text X u.email r.email ≡ true
      → conflicts X (signed_up now new_id hash u) r ≡ true
  unfolding domain_to_entity
  email_conflicts now new_id hash u r filled h = rw (filled, h) (ground arith)

  login_lem :
      (u : Account Text) (hash : Text) (now new_id : ℕ) (rows : List (User Text)) (s : Store Text)
      → X.same u.email u.email ≡ true
      → B.compare hash u.password ≡ true
      → X.is_no_text u.email ≡ false
      → any X (conflicts X (signed_up now new_id hash u)) rows ≡ false
      → s.rows ≡ rows ++ (signed_up now new_id hash u ∷ [])
      → login X B false u.email u.password s
        ≡ found (entity_to_domain X (signed_up now new_id hash u))
  unfolding login with_email find_by_email entity_to_domain domain_to_entity
  login_lem u hash now new_id rows s same right filled fresh at =
      let row = signed_up now new_id hash u in
      let mine : is_text X u.email row.email ≡ true = rw filled same in
      let others =
        any-weaken X (λ r. is_text X u.email r.email) (conflicts X row) rows
          (λ r h. email_conflicts now new_id hash u r filled h) fresh in
      let seen = find_by-append X (λ r. is_text X u.email r.email) rows row others mine in
      rw (at, seen, right) refl

  -- If `SignUp` of a user with an email returns nil, `Login` with the email and the password finds the
  -- row that it has written, and a second `SignUp` with the email, which bcrypt does not refuse and in
  -- which no statement fails, returns the error of the email and changes nothing. The conditions are that
  -- an email equals itself, and that bcrypt accepts the password whose hash it has made.
  pub login-sign_up :
      (fails : Bool) (salt now new_id : ℕ) (u : Account Text) (hash : Text) (s : Store Text)
      → X.same u.email u.email ≡ true
      → B.generate salt u.password ≡ some hash
      → B.compare hash u.password ≡ true
      → X.is_no_text u.email ≡ false
      → (sign_up X B fails salt now new_id u s).0 ≡ none
      → (salt' now' new_id' : ℕ) (v : Account Text) (hash' : Text)
      → B.generate salt' v.password ≡ some hash'
      → let s' = (sign_up X B fails salt now new_id u s).1 in
        (login X B false u.email u.password s'
          ≡ found (entity_to_domain X (signed_up now new_id hash u)))
        × (sign_up X B false salt' now' new_id' (record v { email = u.email }) s'
            ≡ (some duplicate_email, s'))
  unfolding create domain_to_entity
  login-sign_up fails salt now new_id u hash s same made right filled done salt' now' new_id' v
        hash' made' =
      let s' = (sign_up X B fails salt now new_id u s).1 in
      let row = signed_up now new_id hash u in
      let by = sign_up_lem fails salt now new_id u hash s made in
      let (fresh, wrote) =
        inserted X fails now new_id (domain_to_entity X (record u { password = hash })) s.rows
          (sym (ap (λ o. o.0) by) ∙ done) in
      let at : s'.rows ≡ s.rows ++ (row ∷ []) = ap (λ o. o.1.rows) by ∙ ap (λ o. o.1) wrote in
      let second = signed_up now' new_id' hash' (record v { email = u.email }) in
      let clashes : any X (conflicts X second) s'.rows ≡ true = rw at (
        any-append X (conflicts X second) s.rows row (
          email_conflicts now' new_id' hash' (record v { email = u.email }) row filled
            (rw filled same))) in
      (
        login_lem u hash now new_id s.rows s' same right filled fresh at,
        sign_up_lem false salt' now' new_id' (record v { email = u.email }) hash' s' made'
            ∙ ap (λ o. (o.0, record s' { rows = o.1 }))
                (insert-taken X now' new_id'
                  (domain_to_entity X (record v { email = u.email; password = hash' })) s'.rows
                  clashes),
      )
