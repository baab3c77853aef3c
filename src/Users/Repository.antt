-- ===== src/Users/Repository.antt =====
-- webook/internal/repository/user.go and webook/internal/repository/cache/user.go. What json makes of
-- a user and reads back is an argument; a time is its milliseconds.
use weishu.Base.{ℕ, Bool, Option, none, some, List, if◌then◌else◌, ◌==◌}
use weishu.Users.Dao.{
  Texts, User, UserError, Answer, found, failed, insert, find_by_email, find_by_phone,
  find_by_wechat, find_by_id,
}

-- domain.User, with the two fields of its domain.WechatInfo
pub record Account (Text : Type 0) : Type 0 where
  pub id : ℕ
  pub email : Text
  pub password : Text
  pub ctime : ℕ
  pub phone : Text
  pub union_id : Text
  pub open_id : Text
  pub nickname : Text

pub record Store (Text : Type 0) : Type 0 where
  pub rows : List (User Text)
  pub cached : ℕ → Option (Account Text)

module _ {Text : Type 0} (X : Texts Text) where
  -- `NullString.String`, and a `NullString` made of a text.
  abbrev pub string_of : Option Text → Text
  string_of none = X.no_text
  string_of (some t) = t

  abbrev pub null_string : Text → Option Text
  null_string t = if X.is_no_text t then none else some t

  unfoldable pub entity_to_domain : User Text → Account Text
  entity_to_domain u = record {
    id = u.id;
    email = string_of u.email;
    password = u.password;
    ctime = u.ctime;
    phone = string_of u.phone;
    union_id = string_of u.wechat_union_id;
    open_id = string_of u.wechat_open_id;
    nickname = X.no_text;
  }

  unfoldable pub domain_to_entity : Account Text → User Text
  domain_to_entity u = record {
    id = u.id;
    email = null_string u.email;
    password = u.password;
    phone = null_string u.phone;
    ctime = u.ctime;
    utime = 0;
    nickname = X.no_text;
    wechat_union_id = null_string u.open_id;
    wechat_open_id = null_string u.union_id;
  }

  abbrev pub in_domain : Answer (User Text) → Answer (Account Text)
  in_domain (found u) = found (entity_to_domain u)
  in_domain (failed e) = failed e

  -- `Create`, and the three that do not use the cache
  unfoldable pub create : Bool → ℕ → ℕ → Account Text → Store Text → Option UserError × Store Text
  create fails now new_id u s =
      let (e, rows) = insert X fails now new_id (domain_to_entity u) s.rows in
      (e, record s { rows = rows })

  unfoldable pub with_email : Bool → Text → Store Text → Answer (Account Text)
  with_email fails email s = in_domain (find_by_email X fails email s.rows)

  unfoldable pub with_phone : Bool → Text → Store Text → Answer (Account Text)
  with_phone fails phone s = in_domain (find_by_phone X fails phone s.rows)

  unfoldable pub with_wechat : Bool → Text → Store Text → Answer (Account Text)
  with_wechat fails open_id s = in_domain (find_by_wechat X fails open_id s.rows)

  -- The cache's `Get`: none is any error of it.
  unfoldable pub get_cached :
      (Account Text → Option (Account Text)) → Bool → ℕ → Store Text → Option (Account Text)
  get_cached json down id s =
      if down then none else elim (s.cached id) [ none ↦ none | some u ↦ json u ]

  unfoldable pub set_cached : Bool → Account Text → Store Text → Store Text
  set_cached down u s =
      if down then s else record s { cached = λ i. if i == u.id then some u else s.cached i }

  abbrev with_id_from :
      Bool
      → Option (Account Text)
      → Answer (User Text)
      → Store Text
      → Answer (Account Text) × Store Text
  with_id_from set_down (some u) a s = (found u, s)
  with_id_from set_down none (failed e) s = (failed e, s)
  with_id_from set_down none (found r) s =
      (found (entity_to_domain r), set_cached set_down (entity_to_domain r) s)

  -- `FindById`
  unfoldable pub with_id :
      (Account Text → Option (Account Text))
      → Bool
      → Bool
      → Bool
      → ℕ
      → Store Text
      → Answer (Account Text) × Store Text
  with_id json down fails set_down id s =
      with_id_from set_down (get_cached json down id s) (find_by_id X fails id s.rows) s
