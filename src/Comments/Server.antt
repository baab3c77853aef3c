-- ===== src/Comments/Server.antt =====
-- webook/comment/grpc/comment.go, and webook/comment/grpc/rate_limit_comment.go, which is told by the
-- context whether the service is limited or downgraded. A request is its fields; the least id of a page is
-- a natural number, as ids are positive.
use weishu.Base.{
  ℕ, Bool, true, false, not, ◌&&◌, ◌||◌, Option, none, some, List, [], ◌∷◌, map, ◌==◌,
  if◌then◌else◌,
}
use weishu.Comments.Dao.{Row, CommentError, shut_down, Answer, found, failed}
use weishu.Comments.Repository.{
  Comment, get_more_replies, delete_comment, create_comment, get_comment_list,
}

-- A pointer in a reply: to a comment of which only the id is set, or to the comment of the reply that has
-- the id.
pub data Pointer : Type 0 where
  only_id whole : ℕ → Pointer

pub record Dto (Text : Type 0) : Type 0 where
  pub id : ℕ
  pub uid : ℕ
  pub biz : Text
  pub biz_id : ℕ
  pub content : Text
  pub root_comment : Option Pointer
  pub parent_comment : Option Pointer
  pub ctime : ℕ
  pub utime : ℕ

abbrev pub id_of : Option Pointer → Option ℕ
id_of none = none
id_of (some (only_id id)) = some id
id_of (some (whole id)) = some id

module _ {Text : Type 0} where
  abbrev pub is_listed : ℕ → List (Comment Text) → Bool
  is_listed id [] = false
  is_listed id (c ∷ cs) = c.id == id || is_listed id cs

  abbrev pub pointer : List (Comment Text) → Option ℕ → Option Pointer
  pointer all none = none
  pointer all (some id) = some (if is_listed id all then whole id else only_id id)

  abbrev pub dto_in : List (Comment Text) → Comment Text → Dto Text
  dto_in all c = record {
    id = c.id;
    uid = c.commentator;
    biz = c.biz;
    biz_id = c.biz_id;
    content = c.content;
    root_comment = pointer all c.root_comment;
    parent_comment = pointer all c.parent_comment;
    ctime = c.ctime;
    utime = c.utime;
  }

  unfoldable pub to_dto : List (Comment Text) → List (Dto Text)
  to_dto cs = map (dto_in cs) cs

  abbrev pub replied : Answer (List (Comment Text)) → Answer (List (Dto Text))
  replied (found cs) = found (to_dto cs)
  replied (failed e) = failed e

  unfoldable pub serve_more_replies : Bool → ℕ → ℕ → ℕ → List (Row Text) → Answer (List (Dto Text))
  serve_more_replies fails rid max_id limit rows =
      replied (get_more_replies fails rid max_id limit rows)

  unfoldable pub serve_delete : Bool → ℕ → List (Row Text) → Option CommentError × List (Row Text)
  serve_delete fails id rows = delete_comment fails id rows

  -- `convertToDomain`: the times of the request are not taken.
  unfoldable pub convert_to_domain : Dto Text → Comment Text
  convert_to_domain c = record {
    id = c.id;
    commentator = c.uid;
    biz = c.biz;
    biz_id = c.biz_id;
    content = c.content;
    root_comment = id_of c.root_comment;
    parent_comment = id_of c.parent_comment;
    children = [];
    ctime = 0;
    utime = 0;
  }

  unfoldable pub serve_create :
      Bool → ℕ → ℕ → ℕ → Dto Text → List (Row Text) → Option CommentError × List (Row Text)
  serve_create fails now later new_id c rows =
      create_comment fails now later new_id (convert_to_domain c) rows

  -- The rate limited server
  unfoldable pub limited_more_replies :
      Bool → Bool → Bool → ℕ → ℕ → ℕ → List (Row Text) → Answer (List (Dto Text))
  limited_more_replies limited downgrade fails rid max_id limit rows =
      if limited || downgrade
      then failed shut_down
      else serve_more_replies fails rid max_id limit rows

  -- While it is limited it returns no error and creates nothing.
  unfoldable pub limited_create :
      Bool
      → Bool
      → Bool
      → ℕ
      → ℕ
      → ℕ
      → Dto Text
      → List (Row Text)
      → Option CommentError × List (Row Text)
  limited_create limited downgrade fails now later new_id c rows =
      if limited || downgrade
      then (none, rows)
      else create_comment fails now later new_id (convert_to_domain c) rows

module _ {Text : Type 0} (same : Text → Text → Bool) where
  -- `minID` is set to the greatest number for a first query, but it is the request's own least id that is
  -- handed on.
  unfoldable pub serve_list :
      Bool → Bool → (ℕ → Bool) → Text → ℕ → ℕ → ℕ → List (Row Text) → Answer (List (Dto Text))
  serve_list downgrade list_fails fails biz biz_id min_id limit rows =
      replied (get_comment_list same downgrade list_fails fails biz biz_id min_id limit rows)

  abbrev pub is_hot_biz : Text → ℕ → Bool
  is_hot_biz biz biz_id = true

  -- `GetCommentListV1`
  unfoldable pub limited_list_v1 :
      Bool → Bool → (ℕ → Bool) → Text → ℕ → ℕ → ℕ → List (Row Text) → Answer (List (Dto Text))
  limited_list_v1 downgrade list_fails fails biz biz_id min_id limit rows =
      if not (is_hot_biz biz biz_id) && downgrade
      then failed shut_down
      else serve_list downgrade list_fails fails biz biz_id min_id limit rows
