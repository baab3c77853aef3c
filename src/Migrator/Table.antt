-- ===== src/Migrator/Table.antt =====
-- webook/pkg/migrator/migrate.go, and the SQL that the migrator sends: a table is the list of its
-- rows, in the order of their primary keys. It has no unique index but the primary key: a second one,
-- such as that of dao.Interactive on biz_id and biz, is not modelled.
use weishu.Base.{
  ℕ, ◌≤◌, ◌≡◌, ◌↔◌, Bool, true, false, ◌||◌, Option, none, some, List, [], ◌∷◌, ltb, ◌==◌,
  if◌then◌else◌,
}

-- `Entity`: a row has an id and can be compared with another. The comparison is equality, as it is
-- for the entity of the program (`Interactive.CompareTo` is `==` on the structs).
pub record Entity (T : Type 0) : Type 0 where
  pub id : T → ℕ
  pub compare_to : T → T → Bool
  pub compare_to_iff : (a b : T) → (compare_to a b ≡ true) ↔ (a ≡ b)

-- A failure of the database or of the context; `failed` is any other than these two.
pub data Fault : Type 0 where
  canceled deadline_exceeded failed : Fault

-- `gorm.ErrRecordNotFound`, or a fault.
pub data DbError : Type 0 where
  record_not_found : DbError
  fault : Fault → DbError

module _ {T : Type 0} (E : Entity T) where
  -- `WHERE id = ?`, the first row.
  abbrev pub find : ℕ → List T → Option T
  find k [] = none
  find k (x ∷ xs) = if E.id x == k then some x else find k xs

  abbrev pub has : ℕ → List T → Bool
  has k [] = false
  has k (x ∷ xs) = (E.id x == k) || has k xs

  -- `DELETE … WHERE id = ?`
  abbrev pub delete : ℕ → List T → List T
  delete k [] = []
  delete k (x ∷ xs) = if E.id x == k then delete k xs else x ∷ delete k xs

  -- `INSERT … ON DUPLICATE KEY UPDATE`, of all columns.
  abbrev pub upsert : T → List T → List T
  upsert t [] = t ∷ []
  upsert t (x ∷ xs) =
      if E.id x == E.id t
      then t ∷ xs
      else (if ltb (E.id t) (E.id x) then t ∷ x ∷ xs else x ∷ upsert t xs)

  -- The rows stand in strictly ascending order of their ids, all of them at least `low`.
  abbrev pub IsAscending : ℕ → List T → Type 0
  IsAscending low [] = Unit
  IsAscending low (x ∷ xs) = (low ≤ E.id x) × IsAscending (Prim.Native.Nat.suc (E.id x)) xs

  abbrev pub IsTable : List T → Type 0
  IsTable = IsAscending 0
