-- ===== src/Articles/Authors.antt =====
-- The call of the user repository in webook/internal/repository/article.go: the `FindById` of
-- webook/internal/repository/user.go.
use weishu.Base.{ℕ, Bool, Option, none, some}
use weishu.Users.Dao.{Texts, found, failed}
use weishu.Users.Repository.{Account, Store, with_id}

-- The users' table and cache.
abbrev pub People : Type 0 → Type 0
People Text = Store Text

-- What the call meets: the comparisons of texts, what json reads back, and the faults of the cache, of the
-- table and of the goroutine that fills the cache.
pub record Asking (Text : Type 0) : Type 0 where
  pub texts : Texts Text
  pub json : Account Text → Option (Account Text)
  pub down : Bool
  pub fails : Bool
  pub set_down : Bool

-- The nickname of the author, or none for an error.
unfoldable pub author_name :
    {Text : Type 0} → Asking Text → ℕ → People Text → Option Text × People Text
author_name U id p =
    let (r, p') = with_id U.texts U.json U.down U.fails U.set_down id p in
    (elim r [ found u ↦ some u.nickname | failed e ↦ none ], p')
