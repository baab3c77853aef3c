-- ===== src/Ranking/Cache.antt =====
-- webook/internal/repository/ranking.go over webook/internal/repository/cache/rangking_local.go and
-- webook/internal/repository/cache/ranking.go. What json writes and reads back is an argument, and so
-- are the clock and whether Redis fails. `none` stands for an error.
use weishu.Base.{
  ℕ, ◌+◌, ◌≤◌, ◌≡◌, ◌⊎◌, inl, inr, refl, arith, ltb, Bool, true, false, ◌||◌, Option, none, some,
  List, is_empty, if◌then◌else◌, Bool-cases,
}

pub record Local (A : Type 0) : Type 0 where
  pub top_n : List A
  pub ddl : ℕ
  pub expiration : ℕ

-- `json` gives the text of a list, if there is one; `unjson` what a text is read as, also when that ends
-- in an error, which `Get` does not look at.
pub record Json (A Text : Type 0) : Type 0 where
  pub json : List A → Option Text
  pub unjson : Text → List A

pub record Store (A Text : Type 0) : Type 0 where
  pub local : Local A
  pub redis : Option Text

module _ {A : Type 0} where
  unfoldable pub local_set : ℕ → List A → Local A → Local A
  local_set now arts c = record c { top_n = arts; ddl = now + c.expiration }

  unfoldable pub local_get : ℕ → Local A → Option (List A)
  local_get now c = if is_empty c.top_n || ltb c.ddl now then none else some c.top_n

  unfoldable pub force_get : Local A → Option (List A)
  force_get c = if is_empty c.top_n then none else some c.top_n

module _ {A Text : Type 0} (J : Json A Text) where
  -- The loop over the articles changes copies of them, so they are written whole. The result says
  -- whether there was no error.
  unfoldable pub redis_set : Bool → List A → Option Text → Bool × Option Text
  redis_set down arts redis = elim (J.json arts) [
    | none ↦ (false, redis)
    | some t ↦ if down then (false, redis) else (true, some t)
  ]

  unfoldable pub redis_get : Bool → Option Text → Option (List A)
  redis_get down none = none
  redis_get down (some t) = if down then none else some (J.unjson t)

  unfoldable pub replace_top_n : Bool → List A → Store A Text → Bool × Store A Text
  replace_top_n down arts s =
      let (ok, r) = redis_set down arts s.redis in (ok, record s { redis = r })

  unfoldable pub get_top_n : Bool → Store A Text → Option (List A)
  get_top_n down s = redis_get down s.redis

  unfoldable pub replace_top_n_v1 : Bool → ℕ → List A → Store A Text → Bool × Store A Text
  replace_top_n_v1 down now arts s =
      let (ok, r) = redis_set down arts s.redis in
      (ok, record { local = local_set now arts s.local; redis = r })

  abbrev pub from_redis : ℕ → Option (List A) → Store A Text → Option (List A) × Store A Text
  from_redis now none s = (force_get s.local, s)
  from_redis now (some res) s = (some res, record s { local = local_set now res s.local })

  abbrev pub from_local :
      Option (List A)
      → Option (List A) × Store A Text
      → Store A Text
      → Option (List A) × Store A Text
  from_local (some res) other s = (some res, s)
  from_local none other s = other

  unfoldable pub get_top_n_v1 : Bool → ℕ → Store A Text → Option (List A) × Store A Text
  get_top_n_v1 down now s =
      from_local (local_get now s.local) (from_redis now (redis_get down s.redis) s) s

  redis_down : (down : Bool) (r : Option Text) → down ≡ true → redis_get down r ≡ none
  unfolding redis_get
  redis_down down none h = refl
  redis_down down (some t) h = rw h refl

  -- A hot list that is not empty is replaced, whether or not Redis takes it. As long as it has not
  -- expired, and afterwards as long as Redis does not answer, it is what `GetTopNV1` returns.
  pub get_top_n_v1-replace_top_n_v1 :
      (down down' : Bool) (now now' : ℕ) (arts : List A) (s : Store A Text)
      → is_empty arts ≡ false
      → (now' ≤ now + s.local.expiration) ⊎ (down' ≡ true)
      → (get_top_n_v1 down' now' (replace_top_n_v1 down now arts s).1).0 ≡ some arts
  unfolding get_top_n_v1 replace_top_n_v1 local_get local_set force_get
  get_top_n_v1-replace_top_n_v1 down down' now now' arts s filled when =
      elim (Bool-cases (ltb (now + s.local.expiration) now')) [
        | inr fresh ↦ rw (filled, fresh) refl
        | inl late ↦ elim when [
          | inl soon ↦ absurd (ground (arith, late, soon))
          | inr off ↦
              rw (filled, late, redis_down down' (redis_set down arts s.redis).1 off, filled) refl
        ]
      ]
