-- ===== src/Users/Handlers.antt =====
-- The handlers of webook/internal/web/user.go that sign up and log in. What the regular expressions
-- match, and how Go compares two texts, is an argument; a request that Bind refuses is none.
use weishu.Base.{ℕ, Bool, true, false, Option, none, some, List, [], ◌∷◌, if◌then◌else◌}
use weishu.Users.Dao.{
  Texts, UserError, Answer, found, failed, database, duplicate_email, record_not_found,
  invalid_user_or_password, hash_refused,
}
use weishu.Users.Repository.{Account, Store}
use weishu.Users.Service.{Bcrypt, no_account, sign_up, login, find_or_crete}
use weishu.Codes.Service.{
  CodeError, World, set_code_too_many, no_expiration, verify_too_many_times, unknown, redis, sms,
  send, verify,
}
use weishu.Sessions.Tokens.{Headers, no_headers}

-- The texts of the replies.
pub data Message : Type 0 where
  wrong_input code_sent sent_too_often code_missing code_accepted system_error : Message
  wrong_email passwords_differ wrong_password email_taken system_fault sign_up_done : Message
  logged_in wrong_user_or_password : Message

-- What a handler writes: JSON with its code, a text, or the status 400 of Bind.
pub data Body : Type 0 where
  json : ℕ → Message → Body
  text : Message → Body
  bad_request : Body

-- The two patterns, each none for the error of a match, and Go's `==`.
pub record Patterns (Text : Type 0) : Type 0 where
  pub email_exp : Text → Option Bool
  pub password_exp : Text → Option Bool
  pub equal : Text → Text → Bool

pub record SignUpReq (Text : Type 0) : Type 0 where
  pub email : Text
  pub confirm_password : Text
  pub password : Text

abbrev pub send_reply : Option CodeError → Body
send_reply none = json 0 code_sent
send_reply (some set_code_too_many) = json 0 sent_too_often
send_reply (some no_expiration) = json 5 system_error
send_reply (some verify_too_many_times) = json 5 system_error
send_reply (some unknown) = json 5 system_error
send_reply (some redis) = json 5 system_error
send_reply (some sms) = json 5 system_error

abbrev pub sign_up_reply : Option UserError → Body
sign_up_reply none = text sign_up_done
sign_up_reply (some duplicate_email) = text email_taken
sign_up_reply (some database) = text system_fault
sign_up_reply (some record_not_found) = text system_fault
sign_up_reply (some invalid_user_or_password) = text system_fault
sign_up_reply (some hash_refused) = text system_fault

abbrev pub login_error : UserError → Body
login_error invalid_user_or_password = text wrong_user_or_password
login_error duplicate_email = text system_error
login_error database = text system_error
login_error record_not_found = text system_error
login_error hash_refused = text system_error

-- The bodies after `SetLoginToken`, which writes one itself when it fails.
abbrev pub with_tokens : {Text : Type 0} → Body → Bool × Headers Text → List Body × Headers Text
with_tokens done (true, h) = (done ∷ [], h)
with_tokens done (false, h) = (text system_error ∷ json 5 system_error ∷ [], h)

module _ {Text Key Outside : Type 0} (X : Texts Text) where
  -- `SendLoginSMSCode`, for the code that the service has drawn.
  unfoldable pub send_login_sms_code :
      World Text Key Outside → Option Text → Text → Key → Outside → Body × (Key × Outside)
  send_login_sms_code W none code k o = (bad_request, (k, o))
  send_login_sms_code W (some phone) code k o =
      let (e, s) = send W code k o in
      if X.is_no_text phone then (json 4 wrong_input, (k, o)) else (send_reply e, s)

module _ {Text : Type 0} (X : Texts Text) where
  abbrev pub tokens_for :
      (ℕ → Bool × Headers Text)
      → Answer (Account Text) × Store Text
      → (List Body × Headers Text) × Store Text
  tokens_for tokens (failed e, s) = ((json 5 system_error ∷ [], no_headers), s)
  tokens_for tokens (found u, s) = (with_tokens (json 4 code_accepted) (tokens u.id), s)

  abbrev pub after_verify :
      Bool × Option CodeError
      → (List Body × Headers Text) × Store Text
      → Store Text
      → (List Body × Headers Text) × Store Text
  after_verify (ok, some e) rest s = ((json 5 system_error ∷ [], no_headers), s)
  after_verify (false, none) rest s = ((json 4 wrong_input ∷ [], no_headers), s)
  after_verify (true, none) rest s = rest

  -- `LoginSMS`, with the tokens that `SetLoginToken` makes for a user.
  unfoldable pub login_sms :
      {Key Outside : Type 0}
      → World Text Key Outside
      → (ℕ → Bool × Headers Text)
      → Bool
      → Bool
      → Bool
      → ℕ
      → ℕ
      → Option (Text × Text)
      → Key
      → Store Text
      → ((List Body × Headers Text) × Store Text) × Key
  login_sms W tokens fails create_fails again_fails now new_id none k s =
      (((bad_request ∷ [], no_headers), s), k)
  login_sms W tokens fails create_fails again_fails now new_id (some (phone, code)) k s =
      let (r, k') = verify W code k in
      let rest =
        tokens_for tokens (find_or_crete X fails create_fails again_fails now new_id phone s) in
      if X.is_no_text code
      then (((json 5 code_missing ∷ [], no_headers), s), k)
      else (after_verify r rest s, k')

  abbrev pub matched : Option Bool → Message → Body × Store Text → Store Text → Body × Store Text
  matched none message rest s = (text system_error, s)
  matched (some false) message rest s = (text message, s)
  matched (some true) message rest s = rest

  -- `SignUp`
  unfoldable pub handle_sign_up :
      Patterns Text
      → Bcrypt Text
      → Bool
      → ℕ
      → ℕ
      → ℕ
      → Option (SignUpReq Text)
      → Store Text
      → Body × Store Text
  handle_sign_up P B fails salt now new_id none s = (bad_request, s)
  handle_sign_up P B fails salt now new_id (some req) s =
      let (e, s') =
        sign_up X B fails salt now new_id
          (record (no_account X) { email = req.email; password = req.password }) s in
      matched (P.email_exp req.email) wrong_email
        (if P.equal req.confirm_password req.password
          then matched (P.password_exp req.password) wrong_password (sign_up_reply e, s') s
          else (text passwords_differ, s))
        s

  abbrev pub login_reply :
      (ℕ → Bool × Headers Text) → Answer (Account Text) → List Body × Headers Text
  login_reply tokens (found u) = with_tokens (text logged_in) (tokens u.id)
  login_reply tokens (failed e) = (login_error e ∷ [], no_headers)

  -- `LoginJWT`
  unfoldable pub login_jwt :
      Bcrypt Text
      → (ℕ → Bool × Headers Text)
      → Bool
      → Option (Text × Text)
      → Store Text
      → List Body × Headers Text
  login_jwt B tokens fails none s = (bad_request ∷ [], no_headers)
  login_jwt B tokens fails (some (email, password)) s =
      login_reply tokens (login X B fails email password s)
