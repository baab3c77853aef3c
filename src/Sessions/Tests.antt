-- ===== src/Sessions/Tests.antt =====
-- A session of user 7 whose tokens are their own claims, and the theorems at concrete inputs.
use weishu.Base.{
  sym, ◌∙◌, ℕ, ◌*◌, ◌<◌, Bool-cases, ◌≡◌, refl, ◌⊎◌, inl, inr, Bool, false, Option, none, some, [],
  ◌∷◌, ltb, ltb→lt, lt→ltb, ◌==◌, if◌then◌else◌, arith,
}
use mathlib.Core.Option.{some-injective}
use weishu.Sessions.Tokens.{
  RefreshClaims, UserClaims, Jwt, set_refresh_token, set_jwt_token, set_login_token, clear_token,
}
use weishu.Sessions.Requests.{
  unauthorized, admitted, other_path, recovered, logged_out, context_of, check_login,
  profile_request, logout_request, not_logged_in, refresh_token, logout,
}
use weishu.Sessions.Logout.{logout_all, refresh_token-logout, logout_recovers}
use weishu.Sessions.Admission.{check_login-set_login_token}

data Word : Type 0 where
  word : ℕ → Word
  user_token : ℕ → ℕ → Word → ℕ → Word
  refreshing : ℕ → ℕ → ℕ → Word

abbrev same_word : Word → Word → Bool
same_word (word a) (word b) = a == b
same_word (word a) (user_token e u w s) = false
same_word (word a) (refreshing e u s) = false
same_word (user_token e u w s) b = false
same_word (refreshing e u s) b = false

abbrev read_user : ℕ → Word → Option (UserClaims Word)
read_user now (word a) = none
read_user now (user_token e u w s) =
    if ltb now (e * 1000)
    then some (record { expires_at = e; uid = u; user_agent = w; ssid = s })
    else none
read_user now (refreshing e u s) = none

abbrev read_refresh : ℕ → Word → Option RefreshClaims
read_refresh now (word a) = none
read_refresh now (user_token e u w s) = none
read_refresh now (refreshing e u s) =
    if ltb now (e * 1000) then some (record { expires_at = e; uid = u; ssid = s }) else none

abbrev plain : Jwt Word
plain = record {
  sign_user = λ c. some (user_token c.expires_at c.uid c.user_agent c.ssid);
  parse_user = read_user;
  sign_refresh = λ c. some (refreshing c.expires_at c.uid c.ssid);
  parse_refresh = read_refresh;
  same = same_word;
  space = word 0;
}

abbrev claims : UserClaims Word
claims = record { expires_at = 1801; uid = 7; user_agent = word 3; ssid = 40 }

abbrev refresh_of : Word
refresh_of = refreshing 604801 7 40

abbrev access_of : Word
access_of = user_token 1801 7 (word 3) 40

reads_user :
    (now : ℕ) (c : UserClaims Word) (t : Word)
    → plain.sign_user c ≡ some t
    → plain.parse_user now t ≡ (if ltb now (c.expires_at * 1000) then some c else none)
reads_user now c t h = rw (sym (some-injective _ t h)) refl

parse_refresh-sign :
    (now : ℕ) (c : RefreshClaims) (t : Word)
    → plain.sign_refresh c ≡ some t
    → plain.parse_refresh now t ≡ (if ltb now (c.expires_at * 1000) then some c else none)
parse_refresh-sign now c t h = rw (sym (some-injective _ t h)) refl

reads_refresh :
    (now : ℕ) (c : RefreshClaims) (t : Word)
    → plain.sign_refresh c ≡ some t
    → now < c.expires_at * 1000
    → plain.parse_refresh now t ≡ some c
reads_refresh now c t h lt = parse_refresh-sign now c t h ∙ rw (lt→ltb now _ lt) refl

parses_refresh :
    (now : ℕ) (c : RefreshClaims) (t : Word)
    → plain.sign_refresh c ≡ some t
    → (plain.parse_refresh now t ≡ none)
      ⊎ ((plain.parse_refresh now t ≡ some c) × (now < c.expires_at * 1000))
parses_refresh now c t h = elim (Bool-cases (ltb now (c.expires_at * 1000))) [
  | inl b ↦ inr (parse_refresh-sign now c t h ∙ rw b refl, ltb→lt now _ b)
  | inr b ↦ inl (parse_refresh-sign now c t h ∙ rw b refl)
]

signed : (set_login_token plain 1000 1001 (word 3) 7 40).1.refresh ≡ some refresh_of
unfolding set_login_token set_refresh_token set_jwt_token
signed = refl

opened : (set_login_token plain 1000 1001 (word 3) 7 40).1.access ≡ some access_of
unfolding set_login_token set_refresh_token set_jwt_token
opened = refl

-- The middleware sets "claims", so the logout panics; with the claims under "user" it would not.
logs_out :
    logout false 4000 (record { user = some claims; claims = none }) []
    ≡ (logged_out, (40, 604804000) ∷ [])
unfolding logout clear_token
logs_out = refl

-- The session is logged out after 3 seconds; so is another one later.
refresh_token-logout_example :
    refresh_token plain false 9000 (word 3) (some (word 1 ∷ refresh_of ∷ [])) (
      logout_all
        ((5000, record claims { ssid = 41 }) ∷ [])
        (clear_token false 4000 (some claims) []).1)
    ≡ none
refresh_token-logout_example =
    refresh_token-logout plain parses_refresh 1000 1001 4000 (word 3) 7 claims refresh_of []
      (omega arith) signed ((5000, record claims { ssid = 41 }) ∷ []) (omega arith, tt) false 9000
      (word 3) (some (word 1 ∷ refresh_of ∷ [])) refl

logout_recovers_example :
    let checked =
      check_login plain 4000 4000 other_path (word 3) (some (word 1 ∷ access_of ∷ [])) in
    let out = logout_request false 4000 (context_of checked) [] in
    (out ≡ (recovered, []))
    × (refresh_token plain false 9000 (word 3) (some (word 1 ∷ refresh_of ∷ [])) out.1
        ≡ some (set_jwt_token plain 9000 (word 3) 7 40))
logout_recovers_example =
    logout_recovers plain reads_refresh reads_user 1000 1001 (word 3) 7 40 refresh_of access_of []
      refl signed opened false 4000 4000 (some (word 1 ∷ access_of ∷ [])) refl (omega arith) 9000
      (word 3) (some (word 1 ∷ refresh_of ∷ [])) refl (omega arith) refl

-- Without a token the handler does not run.
no_token :
    logout_request false 4000 (context_of (check_login plain 4000 4000 other_path (word 3) none)) []
    ≡ (not_logged_in, [])
unfolding check_login
no_token = refl

check_login-set_login_token_example :
    let reply = check_login plain 4000 4000 other_path (word 3) (some (word 1 ∷ access_of ∷ [])) in
    (reply ≡ admitted claims none) × (profile_request (context_of reply) ≡ some 7)
check_login-set_login_token_example =
    check_login-set_login_token plain reads_user 1000 1001 (word 3) 7 40 access_of opened 4000 4000
      (word 3) (some (word 1 ∷ access_of ∷ [])) refl

-- Half a minute before its end the token is renewed for a minute.
is_renewed :
    check_login plain 1771000 1771000 other_path (word 3) (some (word 1 ∷ access_of ∷ []))
    ≡ admitted (record claims { expires_at = 1831 }) (some (some (user_token 1831 7 (word 3) 40)))
unfolding check_login
is_renewed = refl

-- The half hour is over.
is_late :
    check_login plain 1801000 1801000 other_path (word 3) (some (word 1 ∷ access_of ∷ []))
    ≡ unauthorized
unfolding check_login
is_late = refl
