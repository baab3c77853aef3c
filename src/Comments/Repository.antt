-- ===== src/Comments/Repository.antt =====
-- webook/comment/repository/comment.go and webook/comment/service/comment.go. A time is its
-- milliseconds; a comment that another one points to is its id, which is all that is set of it.
use weishu.Base.{ℕ, Bool, true, false, ◌||◌, Option, none, some, List, [], ◌∷◌, map}
use weishu.Comments.Dao.{
  Row, CommentError, Answer, found, failed, database, find_replies_by_rid, find_one_by_ids, insert,
  delete, find_by_biz,
}

-- domain.Comment; `children` holds nothing but the replies' ids here.
pub record Comment (Text : Type 0) : Type 0 where
  pub id : ℕ
  pub commentator : ℕ
  pub biz : Text
  pub biz_id : ℕ
  pub content : Text
  pub root_comment : Option ℕ
  pub parent_comment : Option ℕ
  pub children : List ℕ
  pub ctime : ℕ
  pub utime : ℕ

module _ {Text : Type 0} where
  unfoldable pub to_domain : Row Text → Comment Text
  to_domain r = record {
    id = r.id;
    commentator = r.uid;
    biz = r.biz;
    biz_id = r.biz_id;
    content = r.content;
    root_comment = r.root_id;
    parent_comment = r.pid;
    children = [];
    ctime = r.ctime;
    utime = r.utime;
  }

  -- The two readings of the clock
  unfoldable pub to_entity : ℕ → ℕ → Comment Text → Row Text
  to_entity now later c = record {
    id = c.id;
    uid = c.commentator;
    biz = c.biz;
    biz_id = c.biz_id;
    content = c.content;
    root_id = c.root_comment;
    pid = c.parent_comment;
    ctime = now;
    utime = later;
  }

  abbrev pub in_domain : Answer (List (Row Text)) → Answer (List (Comment Text))
  in_domain (found rows) = found (map to_domain rows)
  in_domain (failed e) = failed e

  unfoldable pub get_more_replies :
      Bool → ℕ → ℕ → ℕ → List (Row Text) → Answer (List (Comment Text))
  get_more_replies fails rid max_id limit rows =
      in_domain (find_replies_by_rid fails rid max_id limit rows)

  unfoldable pub get_comment_by_ids : Bool → List ℕ → List (Row Text) → Answer (List (Comment Text))
  get_comment_by_ids fails ids rows = in_domain (find_one_by_ids fails ids rows)

  unfoldable pub delete_comment : Bool → ℕ → List (Row Text) → Option CommentError × List (Row Text)
  delete_comment fails id rows = delete fails id rows

  unfoldable pub create_comment :
      Bool → ℕ → ℕ → ℕ → Comment Text → List (Row Text) → Option CommentError × List (Row Text)
  create_comment fails now later new_id c rows = insert fails new_id (to_entity now later c) rows

  -- Each goroutine asks for three replies, and sets them in a variable of its own: `res` has a copy from
  -- before. What is left of it is whether one of them fails.
  abbrev pub one_fails : (ℕ → Bool) → List (Row Text) → Bool
  one_fails fails [] = false
  one_fails fails (r ∷ rows) = fails r.id || one_fails fails rows

  abbrev pub with_replies :
      Bool → (ℕ → Bool) → Answer (List (Row Text)) → List (Comment Text) × Option CommentError
  with_replies downgrade fails (failed e) = ([], some e)
  with_replies true fails (found rows) = (map to_domain rows, none)
  with_replies false fails (found rows) =
      (map to_domain rows, elim (one_fails fails rows) [ true ↦ some database | false ↦ none ])

module _ {Text : Type 0} (same : Text → Text → Bool) where
  unfoldable pub top_comments :
      Bool
      → Bool
      → (ℕ → Bool)
      → Text
      → ℕ
      → ℕ
      → ℕ
      → List (Row Text)
      → List (Comment Text) × Option CommentError
  top_comments downgrade list_fails fails biz biz_id min_id limit rows =
      with_replies downgrade fails (find_by_biz same list_fails biz biz_id min_id limit rows)

  abbrev pub unless : List (Comment Text) × Option CommentError → Answer (List (Comment Text))
  unless (list, some e) = failed e
  unless (list, none) = found list

  -- The service's `GetCommentList`
  unfoldable pub get_comment_list :
      Bool → Bool → (ℕ → Bool) → Text → ℕ → ℕ → ℕ → List (Row Text) → Answer (List (Comment Text))
  get_comment_list downgrade list_fails fails biz biz_id min_id limit rows =
      unless (top_comments downgrade list_fails fails biz biz_id min_id limit rows)
