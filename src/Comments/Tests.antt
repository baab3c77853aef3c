-- ===== src/Comments/Tests.antt =====
-- A comment, a reply and a reply to that on a small table, and the theorems there.
use weishu.Base.{ℕ, ◌≡◌, refl, false, Option, none, some, List, [], ◌∷◌, ◌==◌, map, ◌+◌}
use weishu.Comments.Dao.{Row, found, no_parent, insert, delete, find_by_biz}
use weishu.Comments.Repository.{to_entity, to_domain, create_comment, delete_comment, top_comments}
use weishu.Comments.Server.{Dto, only_id, serve_create, serve_delete, serve_list, convert_to_domain}
use weishu.Comments.Tree.{first_query_empty}

abbrev comment : ℕ → Option ℕ → Dto ℕ
comment id parent = record {
  id = id;
  uid = 9;
  biz = 1;
  biz_id = 7;
  content = 100;
  root_comment = none;
  parent_comment = elim parent [ none ↦ none | some p ↦ some (only_id p) ];
  ctime = 0;
  utime = 0;
}

-- A comment, a reply to it, a reply to that, and another comment.
abbrev three : List (Row ℕ)
three =
    let created = λ (id : ℕ) (parent : Option ℕ) (rows : List (Row ℕ)).
      (serve_create false (4 + id) (4 + id) id (comment 0 parent) rows).1 in
    created 4 none (created 3 (some 2) (created 2 (some 1) (created 1 none [])))

-- The reply to the reply goes too, and the other comment stays.
only_the_last : map (λ r. r.id) (serve_delete false 1 three).1 ≡ 4 ∷ []
unfolding serve_delete serve_create create_comment delete_comment insert delete convert_to_domain
    to_entity
only_the_last = refl

-- A row may be its own parent.
own_parent : (serve_create false 5 5 6 (comment 6 (some 6)) []).0 ≡ none
unfolding serve_create create_comment insert convert_to_domain to_entity
own_parent = refl

abbrev reply : Dto ℕ
reply = record (comment 0 (some 2)) { root_comment = some (only_id 1) }

orphan : (serve_create false 5 5 1 (comment 0 (some 6)) []).0 ≡ some no_parent
unfolding serve_create create_comment insert convert_to_domain to_entity
orphan = refl

first_query_empty_example :
    serve_list (λ a b. a == b) false false (λ i. false) 1 7 0 10 three ≡ found []
first_query_empty_example = first_query_empty (λ a b. a == b) false (λ i. false) 1 7 10 three

-- The comment that has a reply is shown without it.
no_children :
    (top_comments (λ a b. a == b) false false (λ i. false) 1 7 4 10 three).0
    ≡ record {
      id = 1;
      commentator = 9;
      biz = 1;
      biz_id = 7;
      content = 100;
      root_comment = none;
      parent_comment = none;
      children = [];
      ctime = 5;
      utime = 5;
    }
      ∷ []
unfolding top_comments find_by_biz serve_create create_comment insert convert_to_domain to_entity
    to_domain
no_children = refl
