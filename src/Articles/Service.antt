-- ===== src/Articles/Service.antt =====
-- webook/internal/service/article.go. The read event that `GetPubById` sends is a list of what was sent.
use weishu.Base.{ℕ, Bool, Option, none, some, ltb, if◌then◌else◌, Outcome}
use weishu.Articles.Dao.{ArticleError}
use weishu.Articles.Repository.{
  Shown, Store, World, Reply, replied, refused, create, update, sync_both, sync_status, pub_detail,
}
use weishu.Articles.Authors.{People, Asking}

abbrev pub unpublished : ℕ
unpublished = 1

abbrev pub published : ℕ
published = 2

abbrev pub private : ℕ
private = 3

module _ {Text : Type 0} (W : World Text) where
  -- `Save`: an article that has an id is an old one.
  unfoldable pub save :
      Bool → ℕ → ℕ → Shown Text → Store Text → (ℕ × Option ArticleError) × Store Text
  save fails now new_id art s =
      let art' = record art { status = unpublished } in
      if ltb 0 art.id
      then (let (e, s') = update W fails now art' s in ((art.id, e), s'))
      else create W fails now new_id art' s

  unfoldable pub publish :
      Bool → Bool → ℕ → ℕ → ℕ → Shown Text → Store Text → (ℕ × Option ArticleError) × Store Text
  publish save_fails publish_fails now later new_id art s =
      sync_both W save_fails publish_fails now later new_id (record art { status = published }) s

  unfoldable pub withdraw : ℕ → ℕ → Store Text → Outcome (Option ArticleError) × Store Text
  withdraw uid id s = sync_status W uid id private s

  -- `GetPubById`: the reply, the read event of the article and the reader, if one is sent, and what is
  -- stored then.
  unfoldable pub read_pub :
      Asking Text
      → Bool
      → Bool
      → Bool
      → ℕ
      → ℕ
      → Store Text
      → People Text
      → (Reply (Shown Text) × Option (ℕ × ℕ)) × (Store Text × People Text)
  read_pub U down fails set_down id uid s p =
      let (r, after) = pub_detail W U down fails set_down id s p in
      ((r, elim r [ replied a ↦ some (id, uid) | refused e ↦ none ]), after)
