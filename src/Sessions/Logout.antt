-- ===== src/Sessions/Logout.antt =====
-- What logging out does to the refresh token of a session: webook/internal/web/jwt/jwt.go.
use weishu.Base.{
  ℕ, ◌+◌, ◌*◌, ◌≤◌, ◌<◌, ◌≡◌, refl, ◌⊎◌, inl, inr, Bool, true, false, Option, none, some, List, [],
  ◌∷◌, arith, ap, ◌∙◌, Bool-cases, ltb, lt→ltb, ◌&&◌, if◌then◌else◌,
}
use weishu.Sessions.Tokens.{
  UserClaims, RefreshClaims, Jwt, Revoked, rc_expiration, numeric_date, is_revoked, check_session,
  segments, set_refresh_token, set_jwt_token, set_login_token, then_access, clear_token,
}
use weishu.Sessions.Requests.{
  other_path, recovered, context_of, renew, check_login, refresh_token, logout, logout_request,
}
use weishu.Sessions.Admission.{claims_of, check_login-set_login_token}

-- Requests that log out, one after another, while Redis answers.
abbrev pub logout_all : {Text : Type 0} → List (ℕ × UserClaims Text) → Revoked → Revoked
logout_all [] r = r
logout_all ((now, uc) ∷ rest) r = logout_all rest (clear_token false now (some uc) r).1

abbrev pub AllFrom : {Text : Type 0} → ℕ → List (ℕ × UserClaims Text) → Type 0
AllFrom t [] = Unit
AllFrom t ((now, uc) ∷ rest) = (t ≤ now) × AllFrom t rest

is_revoked-logout :
    (now ssid k t : ℕ) (r : Revoked)
    → now < t + rc_expiration
    → is_revoked now ssid r ≡ true
    → is_revoked now ssid ((k, t + rc_expiration) ∷ r) ≡ true
is_revoked-logout now ssid k t r h before = ground arith

is_revoked-logout_all :
    {Text : Type 0} (now ssid t : ℕ) (ls : List (ℕ × UserClaims Text)) (r : Revoked)
    → AllFrom t ls
    → now < t + rc_expiration
    → is_revoked now ssid r ≡ true
    → is_revoked now ssid (logout_all ls r) ≡ true
unfolding clear_token
is_revoked-logout_all now ssid t [] r all h before = before
is_revoked-logout_all now ssid t ((t', uc) ∷ rest) r (le, all) h before =
    is_revoked-logout_all now ssid t rest ((uc.ssid, t' + rc_expiration) ∷ r) all h
      (is_revoked-logout now ssid uc.ssid t' r (omega arith) before)

first_of :
    {Text : Type 0} (J : Jwt Text) (a b : Option Text) (t : Text)
    → (then_access J a b).1.refresh ≡ some t
    → a ≡ some t
first_of J none none t h = h
first_of J none (some b) t h = h
first_of J (some a) none t h = h
first_of J (some a) (some b) t h = h

revoked_fails :
    (down : Bool) (now ssid : ℕ) (r : Revoked)
    → is_revoked now ssid r ≡ true
    → check_session down now ssid r ≡ false
revoked_fails true now ssid r h = refl
revoked_fails false now ssid r h = rw h refl

is_revoked_at :
    (now ssid until : ℕ) (r : Revoked)
    → now < until
    → is_revoked now ssid ((ssid, until) ∷ r) ≡ true
is_revoked_at now ssid until r h = ground arith

-- `LogoutJWT` after an admission: "user" is not set.
no_user-renew :
    {Text : Type 0} (J : Jwt Text) (down : Bool) (now now' : ℕ) (c : UserClaims Text) (r : Revoked)
    → logout_request down now (context_of (renew J now now' c)) r ≡ (recovered, r)
unfolding logout clear_token
no_user-renew J down now now' c r = elim (Bool-cases (ltb (c.expires_at * 1000) (now + 50000))) [
  | inl e ↦ rw e refl
  | inr e ↦ rw e refl
]

module _ {Text : Type 0} (J : Jwt Text) where
  refresh_of_login :
      (now now' : ℕ) (agent : Text) (uid ssid : ℕ) (tok : Text)
      → (set_login_token J now now' agent uid ssid).1.refresh ≡ some tok
      → set_refresh_token J now uid ssid ≡ some tok
  unfolding set_login_token
  refresh_of_login now now' agent uid ssid tok h =
      first_of J (set_refresh_token J now uid ssid) (set_jwt_token J now' agent uid ssid) tok h

  -- After a session was logged out while Redis answered, its refresh token is answered with 401, at
  -- every time and after any further logouts, whether Redis answers or not. The conditions are that
  -- parsing gives the claims that were signed, and none that are expired, and that the logouts
  -- come no earlier than the login.
  pub refresh_token-logout :
      ((now : ℕ) (c : RefreshClaims) (t : Text)
        → J.sign_refresh c ≡ some t
        → (J.parse_refresh now t ≡ none)
          ⊎ ((J.parse_refresh now t ≡ some c) × (now < c.expires_at * 1000)))
      → (t0 t0' t1 : ℕ) (agent : Text) (uid : ℕ) (uc : UserClaims Text) (tok : Text) (r : Revoked)
      → t0 ≤ t1
      → (set_login_token J t0 t0' agent uid uc.ssid).1.refresh ≡ some tok
      → (later : List (ℕ × UserClaims Text)) → AllFrom t1 later
      → (down : Bool) (now : ℕ) (agent' : Text) (header : Option (List Text))
      → segments header ≡ some tok
      → let r' = logout_all later (clear_token false t1 (some uc) r).1 in
        refresh_token J down now agent' header r' ≡ none
  unfolding refresh_token clear_token set_refresh_token
  refresh_token-logout parses t0 t0' t1 agent uid uc tok r le given later all down now agent' header
        at =
      let c : RefreshClaims = record {
        expires_at = numeric_date (t0 + rc_expiration);
        uid = uid;
        ssid = uc.ssid;
      } in
      let r' : Revoked = (uc.ssid, t1 + rc_expiration) ∷ r in
      elim (parses now c tok (refresh_of_login t0 t0' agent uid uc.ssid tok given)) [
        | inl h ↦ rw (at, h) refl
        | inr (h, lt) ↦
            let live : now < t1 + rc_expiration = omega arith in
            let refused = revoked_fails down now uc.ssid (logout_all later r') (
              is_revoked-logout_all now uc.ssid t1 later r' all live
                (is_revoked_at now uc.ssid (t1 + rc_expiration) r live)) in
            rw (at, h, refused) refl
      ]

  -- A user who has logged in, and sends the access token from the same browser before it expires, gets
  -- no reply of `LogoutJWT` to a request to log out: it panics, and changes nothing in Redis. The refresh
  -- token of the login, whose session was not logged out before, still makes the access tokens of the
  -- user, until it expires. The conditions are that parsing gives the claims that were signed until
  -- they expire, and nothing from then on, and that the browser's name equals itself.
  pub logout_recovers :
      ((now : ℕ) (c : RefreshClaims) (t : Text)
        → J.sign_refresh c ≡ some t
        → now < c.expires_at * 1000
        → J.parse_refresh now t ≡ some c)
      → ((now : ℕ) (c : UserClaims Text) (t : Text)
          → J.sign_user c ≡ some t
          → J.parse_user now t ≡ (if ltb now (c.expires_at * 1000) then some c else none))
      → (t0 t0' : ℕ) (agent : Text) (uid ssid : ℕ) (tok access : Text) (r : Revoked)
      → J.same agent agent ≡ true
      → (set_login_token J t0 t0' agent uid ssid).1.refresh ≡ some tok
      → (set_login_token J t0 t0' agent uid ssid).1.access ≡ some access
      → (down : Bool) (now now' : ℕ) (header : Option (List Text)) → segments header ≡ some access
      → now < numeric_date (t0' + 1800000) * 1000
      → (later : ℕ) (agent' : Text) (h : Option (List Text)) → segments h ≡ some tok
      → later < numeric_date (t0 + rc_expiration) * 1000
      → is_revoked later ssid r ≡ false
      → let checked = check_login J now now' other_path agent header in
        let out = logout_request down now (context_of checked) r in
        (out ≡ (recovered, r))
        × (refresh_token J false later agent' h out.1
            ≡ some (set_jwt_token J later agent' uid ssid))
  unfolding refresh_token set_refresh_token
  logout_recovers parses parses_user t0 t0' agent uid ssid tok access r same given given' down now
        now' header at before later agent' h at' live fresh =
      let c : RefreshClaims = record {
        expires_at = numeric_date (t0 + rc_expiration);
        uid = uid;
        ssid = ssid;
      } in
      let checked =
        check_login-set_login_token J parses_user t0 t0' agent uid ssid access given' now now' agent
          header at in
      let good : (ltb now (numeric_date (t0' + 1800000) * 1000) && J.same agent agent) ≡ true =
        rw (lt→ltb now _ before) same in
      let renewed = checked.0 ∙ rw good refl in
      let out =
        ap (λ k. logout_request down now (context_of k) r) renewed
        ∙ no_user-renew J down now now' (claims_of t0' agent uid ssid) r in
      (
        out,
        rw
            (
              out,
              at',
              parses later c tok (refresh_of_login t0 t0' agent uid ssid tok given) live,
              fresh,
            )
            refl,
      )
