-- ===== src/Articles/Reading.antt =====
-- What readers get after a publication: webook/internal/service/article.go and what is below it.
use weishu.Base.{ℕ, ◌≡◌, refl, Bool, false, Option, none, some}
use weishu.Articles.Dao.{Article}
use weishu.Articles.Repository.{
  Shown, Store, World, Reply, replied, refused, from_users, to_entity, get_pub, sync_both,
  sync_status, pub_detail,
}
use weishu.Articles.Authors.{People, Asking, author_name}
use weishu.Articles.Service.{published, publish, withdraw, read_pub}

module _ {Text : Type 0} (W : World Text) where
  -- What is handed to the DAO.
  abbrev pub handed : Shown Text → Article Text
  handed art = to_entity (record art { status = published })

  -- What a reader gets of an article, by what the user repository knows of its author.
  abbrev pub told : Shown Text → ℕ → ℕ → Option Text → Reply (Shown Text) × Option (ℕ × ℕ)
  told a id uid none = (refused from_users, none)
  told a id uid (some name) = (replied (record a { author_name = name }), some (id, uid))

  -- As long as a published article is cached and can be read back, readers are given it: whatever is
  -- published, and whatever a withdrawal of it does to the tables.
  pub read_pub-stale :
      (f g fails set_down : Bool) (now later new_id id uid reader : ℕ) (art a b : Shown Text)
      (s : Store Text) (U : Asking Text) (p : People Text)
      → s.published id ≡ some a
      → W.reread a ≡ some b
      → let s' = (publish W f g now later new_id art s).1 in
        let s'' = (withdraw W uid id s').1 in
        ((read_pub W U false fails set_down id reader s' p).0 ≡ (replied b, some (id, reader)))
        × ((read_pub W U false fails set_down id reader s'' p).0 ≡ (replied b, some (id, reader)))
  unfolding publish sync_both withdraw sync_status read_pub pub_detail get_pub
  read_pub-stale f g fails set_down now later new_id id uid reader art a b s U p cached back =
      (rw (cached, back) refl, rw (cached, back) refl)
