-- ===== src/Comments/Dao.antt =====
-- webook/comment/repository/dao/comment.go. The rows stand in the order of their ids, which is the order
-- in which they were inserted; MySQL keeps the foreign key of the parent, which deletes in cascade. The
-- key of a new row and the comparison of two texts are arguments.
use weishu.Base.{
  ℕ, Bool, true, false, ◌&&◌, ◌||◌, Option, none, some, List, [], ◌∷◌, ◌++◌, ltb, ◌==◌,
  if◌then◌else◌, take, drop, is_empty,
}
use weishu.Interactive.Dao.{is_in}

pub record Row (Text : Type 0) : Type 0 where
  pub id : ℕ
  pub uid : ℕ
  pub biz : Text
  pub biz_id : ℕ
  pub content : Text
  pub root_id : Option ℕ
  pub pid : Option ℕ
  pub ctime : ℕ
  pub utime : ℕ

pub data CommentError : Type 0 where
  database duplicate_key no_parent record_not_found missing_where : CommentError
  shut_down : CommentError

pub data Answer (A : Type 0) : Type 0 where
  found : A → Answer A
  failed : CommentError → Answer A

abbrev pub refers_to : ℕ → Option ℕ → Bool
refers_to id none = false
refers_to id (some p) = p == id

abbrev pub is_top : Option ℕ → Bool
is_top none = true
is_top (some p) = false

abbrev pub is_dead : List ℕ → Option ℕ → Bool
is_dead dead none = false
is_dead dead (some p) = is_in p dead

module _ {Text : Type 0} where
  abbrev pub filter_by : (Row Text → Bool) → List (Row Text) → List (Row Text)
  filter_by p [] = []
  filter_by p (r ∷ rows) = let rest = filter_by p rows in if p r then r ∷ rest else rest

  abbrev pub last_first : List (Row Text) → List (Row Text)
  last_first [] = []
  last_first (r ∷ rows) = last_first rows ++ (r ∷ [])

  abbrev pub answer : Bool → List (Row Text) → Answer (List (Row Text))
  answer fails rows = if fails then failed database else found rows

  unfoldable pub find_replies_by_rid : Bool → ℕ → ℕ → ℕ → List (Row Text) → Answer (List (Row Text))
  find_replies_by_rid fails rid id limit rows =
      answer fails (take limit (filter_by (λ r. refers_to rid r.root_id && ltb id r.id) rows))

  -- `First` of a list: one row, or an error.
  unfoldable pub find_one_by_ids : Bool → List ℕ → List (Row Text) → Answer (List (Row Text))
  find_one_by_ids fails ids rows =
      let res = take 1 (filter_by (λ r. is_in r.id ids) rows) in
      if fails
      then failed database
      else (if is_empty res then failed record_not_found else found res)

  unfoldable pub find_replies_by_pid : Bool → ℕ → ℕ → ℕ → List (Row Text) → Answer (List (Row Text))
  find_replies_by_pid fails pid offset limit rows =
      answer fails
        (take limit (drop offset (last_first (filter_by (λ r. refers_to pid r.pid) rows))))

  abbrev pub has_id : ℕ → List (Row Text) → Bool
  has_id id [] = false
  has_id id (r ∷ rows) = r.id == id || has_id id rows

  abbrev pub parent_is_there : Option ℕ → List (Row Text) → Bool
  parent_is_there none rows = true
  parent_is_there (some p) rows = has_id p rows

  -- `Insert`: the database refuses an id that is taken, and a parent that is not there; a row
  -- may be its own parent.
  unfoldable pub insert :
      Bool → ℕ → Row Text → List (Row Text) → Option CommentError × List (Row Text)
  insert fails new_id u rows =
      let id = if u.id == 0 then new_id else u.id in
      if fails
      then (some database, rows)
      else (if has_id id rows
          then (some duplicate_key, rows)
          else (if refers_to id u.pid || parent_is_there u.pid rows
              then (none, rows ++ (record u { id = id } ∷ []))
              else (some no_parent, rows)))

  -- The row, the rows whose parent it is, and so on: a parent stands before its replies, or is the row
  -- itself.
  abbrev pub cascade : List ℕ → List (Row Text) → List (Row Text)
  cascade dead [] = []
  cascade dead (r ∷ rows) =
      let with = cascade (r.id ∷ dead) rows in
      let without = cascade dead rows in
      if is_in r.id dead || is_dead dead r.pid then with else r ∷ without

  -- `Delete`: without an id, gorm refuses the statement.
  unfoldable pub delete : Bool → ℕ → List (Row Text) → Option CommentError × List (Row Text)
  delete fails id rows =
      if fails
      then (some database, rows)
      else (if id == 0 then (some missing_where, rows) else (none, cascade (id ∷ []) rows))

module _ {Text : Type 0} (same : Text → Text → Bool) where
  unfoldable pub find_by_biz : Bool → Text → ℕ → ℕ → ℕ → List (Row Text) → Answer (List (Row Text))
  find_by_biz fails biz biz_id min_id limit rows = answer fails (
      take limit (
        filter_by (λ r. same r.biz biz && r.biz_id == biz_id && ltb r.id min_id && is_top r.pid)
          rows))

  unfoldable pub find_comment_list : Bool → Row Text → List (Row Text) → Answer (List (Row Text))
  find_comment_list fails u rows = answer fails (
      filter_by
        (λ r.
          if u.id == 0
          then same r.biz u.biz && r.biz_id == u.biz_id && is_top r.root_id
          else refers_to u.id r.root_id || r.id == u.id)
        rows)
