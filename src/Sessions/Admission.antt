-- ===== src/Sessions/Admission.antt =====
-- Which requests the access token of a login opens: webook/internal/web/middleware/login_jwt.go.
use weishu.Base.{
  ℕ, ◌+◌, ◌*◌, ◌≡◌, refl, Bool, true, false, Option, none, some, List, ltb, ◌&&◌, if◌then◌else◌,
  arith,
}
use weishu.Sessions.Tokens.{
  UserClaims, Jwt, numeric_date, segments, set_refresh_token, set_jwt_token, set_login_token,
  then_access,
}
use weishu.Sessions.Requests.{
  unauthorized, admitted, other_path, context_of, check_login, profile_jwt, profile_request, renew,
  with_agent,
}

second_of :
    {Text : Type 0} (J : Jwt Text) (a b : Option Text) (t : Text)
    → (then_access J a b).1.access ≡ some t
    → b ≡ some t
second_of J none none t h = ground arith
second_of J none (some b) t h = ground arith
second_of J (some a) none t h = h
second_of J (some a) (some b) t h = h

profile_request-either :
    {Text : Type 0} (b : Bool) (c d : UserClaims Text) (n : Option (Option Text))
    → d.uid ≡ c.uid
    → profile_request (context_of (if b then admitted d n else admitted c none)) ≡ some c.uid
unfolding profile_jwt
profile_request-either true c d n h = rw h refl
profile_request-either false c d n h = refl

-- The claims of an access token that was made at the time `t`.
abbrev pub claims_of : {Text : Type 0} → ℕ → Text → ℕ → ℕ → UserClaims Text
claims_of t agent uid ssid = record {
  expires_at = numeric_date (t + 1800000);
  uid = uid;
  user_agent = agent;
  ssid = ssid;
}

module _ {Text : Type 0} (J : Jwt Text) where
  access_of_login :
      (now now' : ℕ) (agent : Text) (uid ssid : ℕ) (tok : Text)
      → (set_login_token J now now' agent uid ssid).1.access ≡ some tok
      → set_jwt_token J now' agent uid ssid ≡ some tok
  unfolding set_login_token
  access_of_login now now' agent uid ssid tok h =
      second_of J (set_refresh_token J now uid ssid) (set_jwt_token J now' agent uid ssid) tok h

  opens :
      (b d : Bool) (c : UserClaims Text) (now now' : ℕ) (agent : Text)
      → J.same c.user_agent agent ≡ d
      → let reply = with_agent J now now' agent (if b then some c else none) in
        (reply ≡ (if b && d then renew J now now' c else unauthorized))
        × (profile_request (context_of reply) ≡ (if b && d then some c.uid else none))
  unfolding profile_jwt
  opens true true c now now' agent h = (
    rw h refl,
    rw h (
        profile_request-either (ltb (c.expires_at * 1000) (now + 50000)) c
          (record c { expires_at = numeric_date (now' + 60000) }) _ refl),
  )
  opens true false c now now' agent h = (rw h refl, rw h refl)
  opens false d c now now' agent h = (refl, refl)

  -- The access token of a login opens the paths that need one for the half hour that it lasts, in whole
  -- seconds, and for the browser that has logged in: then the profile is that of the user who has
  -- logged in, and the token is renewed as its claims say. Another browser, or a later time, is answered
  -- with 401. The condition is that parsing gives the claims that were signed until they expire,
  -- and nothing from then on.
  pub check_login-set_login_token :
      ((now : ℕ) (c : UserClaims Text) (t : Text)
        → J.sign_user c ≡ some t
        → J.parse_user now t ≡ (if ltb now (c.expires_at * 1000) then some c else none))
      → (t0 t0' : ℕ) (agent : Text) (uid ssid : ℕ) (tok : Text)
      → (set_login_token J t0 t0' agent uid ssid).1.access ≡ some tok
      → (now now' : ℕ) (agent' : Text) (header : Option (List Text)) → segments header ≡ some tok
      → let reply = check_login J now now' other_path agent' header in
        let good = ltb now (numeric_date (t0' + 1800000) * 1000) && J.same agent agent' in
        (reply ≡ (if good then renew J now now' (claims_of t0' agent uid ssid) else unauthorized))
        × (profile_request (context_of reply) ≡ (if good then some uid else none))
  unfolding check_login set_jwt_token
  check_login-set_login_token parses t0 t0' agent uid ssid tok given now now' agent' header at =
      let c = claims_of t0' agent uid ssid in
      let read = parses now c tok (access_of_login t0 t0' agent uid ssid tok given) in
      rw (at, read)
        (opens (ltb now (c.expires_at * 1000)) (J.same agent agent') c now now' agent' refl)
