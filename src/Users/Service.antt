-- ===== src/Users/Service.antt =====
-- webook/internal/service/user.go. What bcrypt does is an argument: the hash of a password with a salt,
-- or its refusal, and the comparison of a hash with a password.
use weishu.Base.{ℕ, Bool, true, false, Option, none, some, if◌then◌else◌}
use weishu.Users.Dao.{
  Texts, UserError, duplicate_email, record_not_found, database, invalid_user_or_password,
  hash_refused, Answer, found, failed,
}
use weishu.Users.Repository.{Account, Store, create, with_email, with_phone, with_wechat, with_id}

pub record Bcrypt (Text : Type 0) : Type 0 where
  pub generate : ℕ → Text → Option Text
  pub compare : Text → Text → Bool

abbrev pub is_not_found : UserError → Bool
is_not_found record_not_found = true
is_not_found database = false
is_not_found duplicate_email = false
is_not_found invalid_user_or_password = false
is_not_found hash_refused = false

module _ {Text : Type 0} (X : Texts Text) where
  -- `domain.User{}`
  abbrev pub no_account : Account Text
  no_account = record {
    id = 0;
    email = X.no_text;
    password = X.no_text;
    ctime = 0;
    phone = X.no_text;
    union_id = X.no_text;
    open_id = X.no_text;
    nickname = X.no_text;
  }

  unfoldable pub sign_up :
      Bcrypt Text → Bool → ℕ → ℕ → ℕ → Account Text → Store Text → Option UserError × Store Text
  sign_up B fails salt now new_id u s = elim (B.generate salt u.password) [
    | none ↦ (some hash_refused, s)
    | some hash ↦ create X fails now new_id (record u { password = hash }) s
  ]

  abbrev pub checked : Bcrypt Text → Text → Answer (Account Text) → Answer (Account Text)
  checked B password (found u) =
      if B.compare u.password password then found u else failed invalid_user_or_password
  checked B password (failed e) =
      if is_not_found e then failed invalid_user_or_password else failed e

  unfoldable pub login : Bcrypt Text → Bool → Text → Text → Store Text → Answer (Account Text)
  login B fails email password s = checked B password (with_email X fails email s)

  unfoldable pub profile :
      (Account Text → Option (Account Text))
      → Bool
      → Bool
      → Bool
      → ℕ
      → Store Text
      → Answer (Account Text) × Store Text
  profile json down fails set_down id s = with_id X json down fails set_down id s

  abbrev pub after_create :
      Option UserError × Store Text
      → (Store Text → Answer (Account Text))
      → Answer (Account Text) × Store Text
  after_create (some e, s) again = (failed e, s)
  after_create (none, s) again = (again s, s)

  -- What was found is returned, and so is any error but "not found".
  abbrev pub found_or :
      Answer (Account Text)
      → Answer (Account Text) × Store Text
      → Store Text
      → Answer (Account Text) × Store Text
  found_or (found u) other s = (found u, s)
  found_or (failed e) other s = if is_not_found e then other else (failed e, s)

  -- `FindOrCrete`, with the faults of its three statements.
  unfoldable pub find_or_crete :
      Bool → Bool → Bool → ℕ → ℕ → Text → Store Text → Answer (Account Text) × Store Text
  find_or_crete fails create_fails again_fails now new_id phone s =
      found_or (with_phone X fails phone s)
        (after_create (create X create_fails now new_id (record no_account { phone = phone }) s)
          (with_phone X again_fails phone))
        s

  -- `FindOrCrateByWechat`: the new account has the open id for its phone.
  unfoldable pub find_or_crate_by_wechat :
      Bool → Bool → Bool → ℕ → ℕ → Text → Store Text → Answer (Account Text) × Store Text
  find_or_crate_by_wechat fails create_fails again_fails now new_id open_id s =
      found_or (with_wechat X fails open_id s)
        (after_create (create X create_fails now new_id (record no_account { phone = open_id }) s)
          (with_wechat X again_fails open_id))
        s
