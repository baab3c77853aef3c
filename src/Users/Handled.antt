-- ===== src/Users/Handled.antt =====
-- Signing up and logging in by the handlers of webook/internal/web/user.go.
use weishu.Base.{ℕ, ◌≡◌, refl, Bool, true, false, Option, none, some, if◌then◌else◌, arith}
use weishu.Users.Dao.{
  Texts, UserError, database, duplicate_email, record_not_found, invalid_user_or_password,
  hash_refused,
}
use weishu.Users.Repository.{Store, entity_to_domain, domain_to_entity}
use weishu.Users.Service.{Bcrypt, no_account, sign_up}
use weishu.Users.Login.{login-sign_up}
use weishu.Users.Handlers.{
  text, Patterns, SignUpReq, wrong_email, passwords_differ, wrong_password, sign_up_done, logged_in,
  sign_up_reply, matched, with_tokens, handle_sign_up, login_jwt,
}
use weishu.Sessions.Tokens.{Headers}

-- Only a `SignUp` of the service that returns nil is told as one.
no_error : (e : Option UserError) → sign_up_reply e ≡ text sign_up_done → e ≡ none
no_error none h = refl
no_error (some database) h = ground arith
no_error (some duplicate_email) h = ground arith
no_error (some record_not_found) h = ground arith
no_error (some invalid_user_or_password) h = ground arith
no_error (some hash_refused) h = ground arith

through :
    {Text : Type 0} (X : Texts Text) (a : Option Bool) (b : Bool) (c : Option Bool)
    (e : Option UserError) (s s' : Store Text)
    → let out =
        matched X a wrong_email
          (if b
            then matched X c wrong_password (sign_up_reply e, s') s
            else (text passwords_differ, s))
          s in
      out.0 ≡ text sign_up_done → (e ≡ none) × (out.1 ≡ s')
through X none b c e s s' h = ground arith
through X (some false) b c e s s' h = ground arith
through X (some true) false c e s s' h = ground arith
through X (some true) true none e s s' h = ground arith
through X (some true) true (some false) e s s' h = ground arith
through X (some true) true (some true) e s s' h = (no_error e h, refl)

module _ {Text : Type 0} (X : Texts Text) (P : Patterns Text) (B : Bcrypt Text) where
  -- If the reply to a request to sign up says that it was done, then a request to log in with its email
  -- and password, where the statement does not fail, gets the tokens of the user with the new id, and
  -- the reply that the login was done as long as these could be made. The conditions are that an email
  -- equals itself and is not empty, and that bcrypt accepts the password whose hash it has made.
  pub login_jwt-handle_sign_up :
      (fails : Bool) (salt now new_id : ℕ) (req : SignUpReq Text) (hash : Text) (s : Store Text)
      → X.same req.email req.email ≡ true
      → B.generate salt req.password ≡ some hash
      → B.compare hash req.password ≡ true
      → X.is_no_text req.email ≡ false
      → (handle_sign_up X P B fails salt now new_id (some req) s).0 ≡ text sign_up_done
      → (tokens : ℕ → Bool × Headers Text)
      → login_jwt X B tokens false
          (some (req.email, req.password))
          (handle_sign_up X P B fails salt now new_id (some req) s).1
        ≡ with_tokens (text logged_in) (tokens new_id)
  unfolding handle_sign_up login_jwt entity_to_domain domain_to_entity
  login_jwt-handle_sign_up fails salt now new_id req hash s same made right filled done tokens =
      let u = record (no_account X) { email = req.email; password = req.password } in
      let out = sign_up X B fails salt now new_id u s in
      let (fine, wrote) =
        through X (P.email_exp req.email) (P.equal req.confirm_password req.password)
          (P.password_exp req.password) out.0 s out.1 done in
      let logs =
        login-sign_up X B fails salt now new_id u hash s same made right filled fine salt now new_id
          u hash made in
      rw (wrote, logs.0) refl
