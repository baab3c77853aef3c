-- ===== src/Interactive/Calls.antt =====
-- The calls of webook/interactive/service, of its server in webook/interactive/grpc and of its client in
-- webook/internal/client that change something. Each hands on the error and the store of the repository;
-- a reply has no fields.
use weishu.Base.{ℕ, Bool, Option}
use weishu.Interactive.Dao.{Collation}
use weishu.Interactive.Repository.{
  Store, RepoError, incr_read, incr_like, decr_like, add_collection_item,
}
use weishu.Interactive.Service.{remote, local, select_client}

module _ {Text : Type 0} (C : Collation Text) where
  -- What a call makes of the store, and its error.
  abbrev pub Effect : Type 0
  Effect = Store Text → Option RepoError × Store Text

  -- The service
  unfoldable pub service_incr_read_cnt : Bool → Bool → ℕ → ℕ → Text → ℕ → Effect
  service_incr_read_cnt db_fails down now new_id biz id s =
      incr_read C db_fails down now new_id biz id s

  unfoldable pub service_like : Bool → Bool → Bool → ℕ → ℕ → ℕ → Text → ℕ → ℕ → Effect
  service_like f g down now like_id new_id biz id uid s =
      incr_like C f g down now like_id new_id biz id uid s

  unfoldable pub service_cancel_like : Bool → Bool → Bool → ℕ → Text → ℕ → ℕ → Effect
  service_cancel_like f g down now biz id uid s = decr_like C f g down now biz id uid s

  unfoldable pub service_collect : Bool → Bool → Bool → ℕ → ℕ → ℕ → Text → ℕ → ℕ → ℕ → Effect
  service_collect f g down now collect_id new_id biz id cid uid s =
      add_collection_item C f g down now collect_id new_id biz id cid uid s

  -- The server
  unfoldable pub server_incr_read_cnt : Bool → Bool → ℕ → ℕ → Text → ℕ → Effect
  server_incr_read_cnt db_fails down now new_id biz id s =
      service_incr_read_cnt db_fails down now new_id biz id s

  unfoldable pub server_like : Bool → Bool → Bool → ℕ → ℕ → ℕ → Text → ℕ → ℕ → Effect
  server_like f g down now like_id new_id biz id uid s =
      service_like f g down now like_id new_id biz id uid s

  unfoldable pub server_cancel_like : Bool → Bool → Bool → ℕ → Text → ℕ → ℕ → Effect
  server_cancel_like f g down now biz id uid s = service_cancel_like f g down now biz id uid s

  unfoldable pub server_collect : Bool → Bool → Bool → ℕ → ℕ → ℕ → Text → ℕ → ℕ → ℕ → Effect
  server_collect f g down now collect_id new_id biz id cid uid s =
      service_collect f g down now collect_id new_id biz id cid uid s

  -- The adapter of the local service
  unfoldable pub adapter_incr_read_cnt : Bool → Bool → ℕ → ℕ → Text → ℕ → Effect
  adapter_incr_read_cnt db_fails down now new_id biz id s =
      service_incr_read_cnt db_fails down now new_id biz id s

  unfoldable pub adapter_like : Bool → Bool → Bool → ℕ → ℕ → ℕ → Text → ℕ → ℕ → Effect
  adapter_like f g down now like_id new_id biz id uid s =
      service_like f g down now like_id new_id biz id uid s

  unfoldable pub adapter_cancel_like : Bool → Bool → Bool → ℕ → Text → ℕ → ℕ → Effect
  adapter_cancel_like f g down now biz id uid s = service_cancel_like f g down now biz id uid s

  unfoldable pub adapter_collect : Bool → Bool → Bool → ℕ → ℕ → ℕ → Text → ℕ → ℕ → ℕ → Effect
  adapter_collect f g down now collect_id new_id biz id cid uid s =
      service_collect f g down now collect_id new_id biz id cid uid s

  -- The client, with its threshold and its draw
  unfoldable pub client_incr_read_cnt : ℕ → ℕ → Bool → Bool → ℕ → ℕ → Text → ℕ → Effect
  client_incr_read_cnt threshold num db_fails down now new_id biz id s =
      elim (select_client threshold num) [
        | remote ↦ server_incr_read_cnt db_fails down now new_id biz id s
        | local ↦ adapter_incr_read_cnt db_fails down now new_id biz id s
      ]

  unfoldable pub client_like : ℕ → ℕ → Bool → Bool → Bool → ℕ → ℕ → ℕ → Text → ℕ → ℕ → Effect
  client_like threshold num f g down now like_id new_id biz id uid s =
      elim (select_client threshold num) [
        | remote ↦ server_like f g down now like_id new_id biz id uid s
        | local ↦ adapter_like f g down now like_id new_id biz id uid s
      ]

  unfoldable pub client_cancel_like : ℕ → ℕ → Bool → Bool → Bool → ℕ → Text → ℕ → ℕ → Effect
  client_cancel_like threshold num f g down now biz id uid s = elim (select_client threshold num) [
    | remote ↦ server_cancel_like f g down now biz id uid s
    | local ↦ adapter_cancel_like f g down now biz id uid s
  ]

  unfoldable pub client_collect : ℕ → ℕ → Bool → Bool → Bool → ℕ → ℕ → ℕ → Text → ℕ → ℕ → ℕ → Effect
  client_collect threshold num f g down now collect_id new_id biz id cid uid s =
      elim (select_client threshold num) [
        | remote ↦ server_collect f g down now collect_id new_id biz id cid uid s
        | local ↦ adapter_collect f g down now collect_id new_id biz id cid uid s
      ]
