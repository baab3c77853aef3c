-- ===== src/Sessions/Tokens.antt =====
-- webook/internal/web/jwt/jwt.go. The clock counts milliseconds, and a date in a token seconds. The JWT
-- library, with its two keys, is an argument, and so are the id of a new session and a failure of Redis.
use weishu.Base.{
  ℕ, ◌+◌, ◌/◌, Bool, true, false, Option, none, some, List, [], ◌∷◌, ltb, ◌==◌, if◌then◌else◌,
}
use weishu.Base.{Outcome, returns, panics}

pub record RefreshClaims : Type 0 where
  pub expires_at : ℕ
  pub uid : ℕ
  pub ssid : ℕ

pub record UserClaims (Text : Type 0) : Type 0 where
  pub expires_at : ℕ
  pub uid : ℕ
  pub user_agent : Text
  pub ssid : ℕ

-- `SignedString` and `ParseWithClaims` with either key. Signing may fail; parsing gives none for an error
-- and for a token that is not valid at the time. `space` is the text of one space.
pub record Jwt (Text : Type 0) : Type 0 where
  pub sign_user : UserClaims Text → Option Text
  pub parse_user : ℕ → Text → Option (UserClaims Text)
  pub sign_refresh : RefreshClaims → Option Text
  pub parse_refresh : ℕ → Text → Option RefreshClaims
  pub same : Text → Text → Bool
  pub space : Text

-- The headers that a reply has for its tokens.
pub record Headers (Text : Type 0) : Type 0 where
  pub refresh : Option Text
  pub access : Option Text

abbrev pub no_headers : {Text : Type 0} → Headers Text
no_headers = record { refresh = none; access = none }

-- The keys `users:ssid:…` in Redis, each with the time at which it expires, the last that was set first.
abbrev pub Revoked : Type 0
Revoked = List (ℕ × ℕ)

-- `rcExpiration`, a week
abbrev pub rc_expiration : ℕ
rc_expiration = 604800000

-- `jwt.NewNumericDate`
abbrev pub numeric_date : ℕ → ℕ
numeric_date t = t / 1000

-- `EXISTS`
abbrev pub is_revoked : ℕ → ℕ → Revoked → Bool
is_revoked now ssid [] = false
is_revoked now ssid ((k, until) ∷ rest) =
    if k == ssid then ltb now until else is_revoked now ssid rest

-- `CheckSession`: whether it returns nil.
abbrev pub check_session : Bool → ℕ → ℕ → Revoked → Bool
check_session down now ssid r =
    if down then false else (if is_revoked now ssid r then false else true)

-- The segments of the header Authorization; none where it is empty.
abbrev pub segments : {Text : Type 0} → Option (List Text) → Option Text
segments none = none
segments (some []) = none
segments (some (a ∷ [])) = none
segments (some (a ∷ b ∷ [])) = some b
segments (some (a ∷ b ∷ c ∷ rest)) = none

module _ {Text : Type 0} (J : Jwt Text) where
  -- `ExtractToken`: the token, and whether the request was aborted.
  abbrev pub extracted : Option Text → Text × Bool
  extracted none = (J.space, true)
  extracted (some t) = (t, false)

  abbrev pub extract_token : Option (List Text) → Text × Bool
  extract_token header = extracted (segments header)

  unfoldable pub set_jwt_token : ℕ → Text → ℕ → ℕ → Option Text
  set_jwt_token now agent uid ssid = J.sign_user (record {
    expires_at = numeric_date (now + 1800000);
    uid = uid;
    user_agent = agent;
    ssid = ssid;
  })

  unfoldable pub set_refresh_token : ℕ → ℕ → ℕ → Option Text
  set_refresh_token now uid ssid =
      J.sign_refresh
        (record { expires_at = numeric_date (now + rc_expiration); uid = uid; ssid = ssid })

  abbrev pub then_access : Option Text → Option Text → Bool × Headers Text
  then_access none access = (false, no_headers)
  then_access (some t) none = (false, record { refresh = some t; access = none })
  then_access (some t) (some a) = (true, record { refresh = some t; access = some a })

  -- `SetLoginToken`, at the time of either token: whether it returns nil, and the headers.
  unfoldable pub set_login_token : ℕ → ℕ → Text → ℕ → ℕ → Bool × Headers Text
  set_login_token now now' agent uid ssid =
      then_access (set_refresh_token now uid ssid) (set_jwt_token now' agent uid ssid)

-- The claims are what the request has under the name "user", for `MustGet("user").(UserClaims)`.
-- `ClearToken`: whether it returns nil, and the keys in Redis. The headers are emptied before it panics.
unfoldable pub clear_token :
    {Text : Type 0} → Bool → ℕ → Option (UserClaims Text) → Revoked → Outcome Bool × Revoked
clear_token down now none r = (panics, r)
clear_token down now (some uc) r =
    if down then (returns false, r) else (returns true, (uc.ssid, now + rc_expiration) ∷ r)
