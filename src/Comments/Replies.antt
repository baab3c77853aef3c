-- ===== src/Comments/Replies.antt =====
-- What webook/comment shows of a reply that was created.
use weishu.Base.{ℕ, ◌&&◌, List, ◌==◌, ltb, if◌then◌else◌}
use weishu.Comments.Dao.{Row, filter_by, refers_to}
use weishu.Comments.Repository.{Comment}
use weishu.Comments.Server.{Dto, convert_to_domain}

-- The id of a new row.
abbrev pub given_id : ℕ → ℕ → ℕ
given_id id new_id = if id == 0 then new_id else id

module _ {Text : Type 0} where
  -- The replies of a root that stood there, with ids above a given one.
  abbrev pub replies : ℕ → ℕ → List (Row Text) → List (Row Text)
  replies rid max_id rows = filter_by (λ r. refers_to rid r.root_id && ltb max_id r.id) rows

  -- The comment of a request, with what it gets when it is created.
  abbrev pub as_created : ℕ → ℕ → ℕ → Dto Text → Comment Text
  as_created now later new_id c = record (convert_to_domain c) {
    id = given_id c.id new_id;
    ctime = now;
    utime = later;
  }
