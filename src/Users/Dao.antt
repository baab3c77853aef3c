-- ===== src/Users/Dao.antt =====
-- webook/internal/repository/dao/user.go. The rows stand in the order of their ids. What Go and MySQL do
-- with texts is an argument; a NULL is none. The clock and the id of a new row are arguments too.
use weishu.Base.{
  ℕ, Bool, true, false, ◌||◌, Option, none, some, List, [], ◌∷◌, ◌++◌, ◌==◌, if◌then◌else◌,
}

-- How the columns compare two texts, how they compare a text with a number, Go's `""`, and its test.
pub record Texts (Text : Type 0) : Type 0 where
  pub same : Text → Text → Bool
  pub equals_number : Text → ℕ → Bool
  pub no_text : Text
  pub is_no_text : Text → Bool

pub record User (Text : Type 0) : Type 0 where
  pub id : ℕ
  pub email : Option Text
  pub password : Text
  pub phone : Option Text
  pub ctime : ℕ
  pub utime : ℕ
  pub nickname : Text
  pub wechat_union_id : Option Text
  pub wechat_open_id : Option Text

pub data UserError : Type 0 where
  database duplicate_email record_not_found : UserError
  invalid_user_or_password hash_refused : UserError

pub data Answer (A : Type 0) : Type 0 where
  found : A → Answer A
  failed : UserError → Answer A

module _ {Text : Type 0} (X : Texts Text) where
  -- `column = ?`, which no NULL satisfies.
  abbrev pub is_text : Text → Option Text → Bool
  is_text t none = false
  is_text t (some s) = X.same s t

  abbrev pub is_number : ℕ → Option Text → Bool
  is_number n none = false
  is_number n (some s) = X.equals_number s n

  -- Two values of a unique column: NULLs do not clash.
  abbrev pub clash : Option Text → Option Text → Bool
  clash old none = false
  clash old (some t) = is_text t old

  abbrev pub conflicts : User Text → User Text → Bool
  conflicts u r =
      r.id == u.id
      || clash r.email u.email
      || clash r.phone u.phone
      || clash r.wechat_open_id u.wechat_open_id

  abbrev pub any : (User Text → Bool) → List (User Text) → Bool
  any p [] = false
  any p (r ∷ rows) = p r || any p rows

  abbrev pub find_by : (User Text → Bool) → List (User Text) → Option (User Text)
  find_by p [] = none
  find_by p (r ∷ rows) = if p r then some r else find_by p rows

  abbrev pub first_of : Bool → Option (User Text) → Answer (User Text)
  first_of true r = failed database
  first_of false none = failed record_not_found
  first_of false (some r) = found r

  -- The row as it is written: an id of zero is replaced.
  abbrev pub new_row : ℕ → ℕ → User Text → User Text
  new_row now new_id u = record u {
    id = if u.id == 0 then new_id else u.id;
    ctime = now;
    utime = now;
  }

  -- `Insert`: MySQL's error 1062, of whatever unique column, becomes the error of the email.
  unfoldable pub insert :
      Bool → ℕ → ℕ → User Text → List (User Text) → Option UserError × List (User Text)
  insert fails now new_id u rows =
      if fails
      then (some database, rows)
      else (if any (conflicts (new_row now new_id u)) rows
          then (some duplicate_email, rows)
          else (none, rows ++ (new_row now new_id u ∷ [])))

  unfoldable pub find_by_email : Bool → Text → List (User Text) → Answer (User Text)
  find_by_email fails email rows = first_of fails (find_by (λ r. is_text email r.email) rows)

  unfoldable pub find_by_phone : Bool → Text → List (User Text) → Answer (User Text)
  find_by_phone fails phone rows = first_of fails (find_by (λ r. is_text phone r.phone) rows)

  unfoldable pub find_by_wechat : Bool → Text → List (User Text) → Answer (User Text)
  find_by_wechat fails open_id rows =
      first_of fails (find_by (λ r. is_text open_id r.wechat_open_id) rows)

  -- `FindById`: the statement asks for `email=?`.
  unfoldable pub find_by_id : Bool → ℕ → List (User Text) → Answer (User Text)
  find_by_id fails id rows = first_of fails (find_by (λ r. is_number id r.email) rows)
