-- ===== src/Sessions/Requests.antt =====
-- webook/internal/web/middleware/login_jwt.go, and the handlers of tokens in webook/internal/web/user.go
-- (`RefreshToken`, `LogoutJWT`).
use weishu.Base.{ℕ, ◌+◌, ◌*◌, Bool, true, false, Option, none, some, List, ltb, if◌then◌else◌}
use weishu.Base.{Outcome, returns, panics}
use weishu.Sessions.Tokens.{
  UserClaims, RefreshClaims, Jwt, Revoked, numeric_date, check_session, segments, extract_token,
  set_jwt_token, clear_token,
}

-- The paths that need no login, and the others.
pub data Route : Type 0 where
  signup login login_sms_code_send login_sms wechat_authurl other_path : Route

abbrev pub is_open : Route → Bool
is_open signup = true
is_open login = true
is_open login_sms_code_send = true
is_open login_sms = true
is_open wechat_authurl = true
is_open other_path = false

-- What `CheckLogin` does with a request. An admitted one has the claims under the name "claims", and
-- where the token was renewed, the header of the new one; none in it where signing failed.
pub data Checked (Text : Type 0) : Type 0 where
  unchecked unauthorized : Checked Text
  admitted : UserClaims Text → Option (Option Text) → Checked Text

-- The reply to a request to log out: the message or the error of `LogoutJWT`, what the recovery from a
-- panic replies, or the 401 of `CheckLogin`.
pub data LogoutReply : Type 0 where
  logged_out system_error recovered not_logged_in : LogoutReply

module _ {Text : Type 0} (J : Jwt Text) where
  -- The renewal of a token that has less than 50 seconds left, for a minute.
  abbrev pub renew : ℕ → ℕ → UserClaims Text → Checked Text
  renew now now' c =
      let c' = record c { expires_at = numeric_date (now' + 60000) } in
      if ltb (c.expires_at * 1000) (now + 50000)
      then admitted c' (some (J.sign_user c'))
      else admitted c none

  abbrev pub with_agent : ℕ → ℕ → Text → Option (UserClaims Text) → Checked Text
  with_agent now now' agent none = unauthorized
  with_agent now now' agent (some c) =
      if J.same c.user_agent agent then renew now now' c else unauthorized

  abbrev pub with_token : ℕ → ℕ → Text → Option Text → Checked Text
  with_token now now' agent none = unauthorized
  with_token now now' agent (some t) = with_agent now now' agent (J.parse_user now t)

  -- `CheckLogin`, at the time of the request and of the renewal.
  unfoldable pub check_login : ℕ → ℕ → Route → Text → Option (List Text) → Checked Text
  check_login now now' path agent header =
      if is_open path then unchecked else with_token now now' agent (segments header)

  abbrev pub refresh_with : Bool → ℕ → Text → Revoked → Option RefreshClaims → Option (Option Text)
  refresh_with down now agent r none = none
  refresh_with down now agent r (some rc) =
      if check_session down now rc.ssid r
      then some (set_jwt_token J now agent rc.uid rc.ssid)
      else none

  -- `RefreshToken`: none where it aborts with 401, else the access token that it has signed.
  unfoldable pub refresh_token :
      Bool → ℕ → Text → Option (List Text) → Revoked → Option (Option Text)
  refresh_token down now agent header r =
      let (t, aborted) = extract_token J header in
      let reply = refresh_with down now agent r (J.parse_refresh now t) in
      if aborted then none else reply

-- The values that a request has under the names "user" and "claims".
pub record Context (Text : Type 0) : Type 0 where
  pub user : Option (UserClaims Text)
  pub claims : Option (UserClaims Text)

-- The values with which the handler runs after `CheckLogin`, which sets "claims"; none where it has
-- aborted the request, so that no handler runs.
abbrev pub context_of : {Text : Type 0} → Checked Text → Option (Context Text)
context_of unchecked = some (record { user = none; claims = none })
context_of unauthorized = none
context_of (admitted c renewed) = some (record { user = none; claims = some c })

-- `ProfileJWT`: the user whose id it prints, or the system's error.
unfoldable pub profile_jwt : {Text : Type 0} → Context Text → Option ℕ
profile_jwt ctx = elim ctx.claims [ none ↦ none | some c ↦ some c.uid ]

-- A request for the profile: none where it is aborted as well.
abbrev pub profile_request : {Text : Type 0} → Option (Context Text) → Option ℕ
profile_request none = none
profile_request (some ctx) = profile_jwt ctx

abbrev pub logout_reply : Outcome Bool × Revoked → LogoutReply × Revoked
logout_reply (panics, r) = (recovered, r)
logout_reply (returns true, r) = (logged_out, r)
logout_reply (returns false, r) = (system_error, r)

-- `LogoutJWT`
unfoldable pub logout : {Text : Type 0} → Bool → ℕ → Context Text → Revoked → LogoutReply × Revoked
logout down now ctx r = logout_reply (clear_token down now ctx.user r)

-- A request to log out, as `CheckLogin` lets it through.
abbrev pub logout_request :
    {Text : Type 0} → Bool → ℕ → Option (Context Text) → Revoked → LogoutReply × Revoked
logout_request down now none r = (not_logged_in, r)
logout_request down now (some ctx) r = logout down now ctx r
