-- ===== src/Interactive/Service.antt =====
-- webook/interactive/service/interactive.go, webook/interactive/grpc/interactive.go, which answers for
-- it, and webook/internal/client, which sends a call to that server or to the service beside it. A
-- request is its arguments, a reply is the reply's fields, none is a nil pointer. The remote server is
-- the one of this file, over a connection that loses nothing.
use weishu.Base.{ℕ, Bool, false, Option, none, some, List, [], ◌∷◌, if◌then◌else◌, ltb, ◌==◌}
use weishu.Base.Int.{ℤ, pos}
use weishu.Interactive.Dao.{Collation, DbError, Answer, found, failed}
use weishu.Interactive.Repository.{Shown, Store, get_shown, liked, collected, get_all}

-- intrv1.Interactive
pub record Dto (Text : Type 0) : Type 0 where
  pub biz : Text
  pub biz_id : ℕ
  pub read_cnt : ℕ
  pub like_cnt : ℤ
  pub collect_cnt : ℕ
  pub liked : Bool
  pub collected : Bool

-- What the database and Redis do to one call of `Get`, and which of its two goroutines ends first.
pub record Weather : Type 0 where
  pub get_fails : Bool
  pub down : Bool
  pub set_fails : Bool
  pub expire_fails : Bool
  pub liked_fails : Bool
  pub collected_fails : Bool
  pub liked_first : Bool

pub data Side : Type 0 where
  remote local : Side

abbrev value_or_false : Answer Bool → Bool
value_or_false (found b) = b
value_or_false (failed e) = false

-- `errgroup`: the error of the goroutine that fails first.
abbrev first_error : Bool → Answer Bool → Answer Bool → Option DbError
first_error b (found x) (found y) = none
first_error b (failed e) (found y) = some e
first_error b (found x) (failed e') = some e'
first_error b (failed e) (failed e') = some (if b then e else e')

-- The client draws `num` below 100.
unfoldable pub select_client : ℕ → ℕ → Side
select_client threshold num = if ltb num threshold then remote else local

module _ {Text : Type 0} where
  unfoldable pub to_dto : Shown Text → Dto Text
  to_dto intr = record {
    biz = intr.biz;
    biz_id = intr.biz_id;
    read_cnt = intr.read_cnt;
    like_cnt = intr.like_cnt;
    collect_cnt = intr.collect_cnt;
    liked = intr.liked;
    collected = intr.collected;
  }

  -- What `Get` returns once both goroutines have ended.
  abbrev pub with_flags :
      Bool
      → Answer (Shown Text)
      → Answer Bool
      → Answer Bool
      → Shown Text
      → Store Text
      → (Shown Text × Option DbError) × Store Text
  with_flags first (failed e) l c zero_value s = ((zero_value, some e), s)
  with_flags first (found intr) l c zero_value s = (
    (record intr { liked = value_or_false l; collected = value_or_false c }, first_error first l c),
    s,
  )

  -- An error takes the place of the reply.
  abbrev pub replied : (Shown Text × Option DbError) × Store Text → Answer (Dto Text) × Store Text
  replied ((intr, some e), s) = (failed e, s)
  replied ((intr, none), s) = (found (to_dto intr), s)

  -- A map from the ids: a later entry takes the place of an earlier one.
  abbrev pub by_id : List (Shown Text) → ℕ → Option (Shown Text)
  by_id [] = λ k. none
  by_id (x ∷ xs) =
      let rest = by_id xs in
      λ k. elim (rest k) [ some y ↦ some y | none ↦ if x.biz_id == k then some x else none ]

  abbrev pub each_to_dto : (ℕ → Option (Shown Text)) → ℕ → Option (Dto Text)
  each_to_dto m = λ k. elim (m k) [ none ↦ none | some x ↦ some (to_dto x) ]

module _ {Text : Type 0} (C : Collation Text) (empty_text : Text) where
  abbrev pub zero_value : Shown Text
  zero_value = record {
    biz = empty_text;
    biz_id = 0;
    read_cnt = 0;
    like_cnt = pos 0;
    collect_cnt = 0;
    liked = false;
    collected = false;
  }

  -- `Get` returns what it has read even when one of its goroutines fails.
  unfoldable pub service_get :
      Weather → Text → ℕ → ℕ → Store Text → (Shown Text × Option DbError) × Store Text
  service_get w biz id uid s =
      let (a, s') = get_shown C w.get_fails w.down w.set_fails w.expire_fails biz id s in
      let l = liked C w.liked_fails biz id uid s' in
      let c = collected C w.collected_fails biz id uid s' in
      with_flags w.liked_first a l c zero_value s'

  unfoldable pub service_get_by_ids :
      Bool → Text → List ℕ → Store Text → Answer (ℕ → Option (Shown Text))
  service_get_by_ids fails biz ids s = elim (get_all C fails biz ids s) [
    | failed e ↦ failed e
    | found intrs ↦ found (by_id intrs)
  ]

  -- The server's `Get` and `GetByIds`
  unfoldable pub server_get : Weather → Text → ℕ → ℕ → Store Text → Answer (Dto Text) × Store Text
  server_get w biz id uid s = replied (service_get w biz id uid s)

  unfoldable pub server_get_by_ids :
      Bool → Text → List ℕ → Store Text → Answer (ℕ → Option (Dto Text))
  server_get_by_ids fails biz ids s = elim (service_get_by_ids fails biz ids s) [
    | failed e ↦ failed e
    | found m ↦ found (each_to_dto m)
  ]

  -- The same two of the adapter
  unfoldable pub adapter_get : Weather → Text → ℕ → ℕ → Store Text → Answer (Dto Text) × Store Text
  adapter_get w biz id uid s = replied (service_get w biz id uid s)

  unfoldable pub adapter_get_by_ids :
      Bool → Text → List ℕ → Store Text → Answer (ℕ → Option (Dto Text))
  adapter_get_by_ids fails biz ids s = elim (service_get_by_ids fails biz ids s) [
    | failed e ↦ failed e
    | found m ↦ found (each_to_dto m)
  ]

  unfoldable pub client_get :
      ℕ → ℕ → Weather → Text → ℕ → ℕ → Store Text → Answer (Dto Text) × Store Text
  client_get threshold num w biz id uid s = elim (select_client threshold num) [
    | remote ↦ server_get w biz id uid s
    | local ↦ adapter_get w biz id uid s
  ]

  unfoldable pub client_get_by_ids :
      ℕ → ℕ → Bool → Text → List ℕ → Store Text → Answer (ℕ → Option (Dto Text))
  client_get_by_ids threshold num fails biz ids s = elim (select_client threshold num) [
    | remote ↦ server_get_by_ids fails biz ids s
    | local ↦ adapter_get_by_ids fails biz ids s
  ]
