-- ===== src/Comments/Tree.antt =====
-- What a first query of webook/comment shows of the comments.
use weishu.Base.{
  ap, ◌∙◌, ℕ, ◌≡◌, refl, Bool, true, false, ◌&&◌, List, [], ◌∷◌, arith, ◌==◌, ltb, take,
}
use weishu.Comments.Dao.{Row, found, filter_by, is_top, find_by_biz}
use weishu.Comments.Repository.{top_comments, get_comment_list, unless, with_replies}
use weishu.Comments.Server.{to_dto, replied, serve_list}

module _ {Text : Type 0} (same : Text → Text → Bool) where
  below_zero :
      (biz : Text) (biz_id : ℕ) (rows : List (Row Text))
      → filter_by (λ r. same r.biz biz && r.biz_id == biz_id && ltb r.id 0 && is_top r.pid) rows
        ≡ []
  below_zero biz biz_id [] = refl
  below_zero biz biz_id (r ∷ rows) =
      let out : (same r.biz biz && r.biz_id == biz_id && ltb r.id 0 && is_top r.pid) ≡ false =
        ground arith in
      rw out (below_zero biz biz_id rows)

  take_none : (n : ℕ) → take {A = Row Text} n [] ≡ []
  take_none ℕ.zero = refl
  take_none (ℕ.suc n) = refl

  nothing :
      (downgrade : Bool) (fails : ℕ → Bool)
      → replied (unless same (with_replies downgrade fails (found []))) ≡ found []
  unfolding to_dto
  nothing true fails = refl
  nothing false fails = refl

  -- The first query, whose least id is zero, is answered with no comment, whatever the table holds.
  pub first_query_empty :
      (downgrade : Bool) (fails : ℕ → Bool) (biz : Text) (biz_id limit : ℕ) (rows : List (Row Text))
      → serve_list same downgrade false fails biz biz_id 0 limit rows ≡ found []
  unfolding serve_list get_comment_list top_comments find_by_biz to_dto
  first_query_empty downgrade fails biz biz_id limit rows =
      ap (λ t. replied (unless same (with_replies downgrade fails (found (take limit t)))))
        (below_zero biz biz_id rows)
      ∙ ap (λ t. replied (unless same (with_replies downgrade fails (found t)))) (take_none limit)
      ∙ nothing downgrade fails
