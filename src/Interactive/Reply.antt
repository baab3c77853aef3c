-- ===== src/Interactive/Reply.antt =====
-- What a client of webook/internal/client/intr.go is told, through webook/interactive/grpc,
-- webook/interactive/service and webook/interactive/repository.
use weishu.Base.{ℕ, Bool, true, false, ◌&&◌, none, some, List, ◌==◌}
use weishu.Interactive.Dao.{Interactive, Collation, Tables, find_by, likes_it, collects_it}
use weishu.Interactive.Cache.{Counts}
use weishu.Interactive.Service.{Dto}

-- Whether a table has a row of this kind.
abbrev pub has : {A : Type 0} → (A → Bool) → List A → Bool
has p rows = elim (find_by p rows) [ none ↦ false | some r ↦ true ]

module _ {Text : Type 0} (C : Collation Text) where
  abbrev pub is_liked : Text → ℕ → ℕ → Tables Text → Bool
  is_liked biz id uid d = has (λ l. likes_it C biz id uid l && l.status == 1) d.likes

  abbrev pub is_collected : Text → ℕ → ℕ → Tables Text → Bool
  is_collected biz id uid d = has (collects_it C biz id uid) d.collections

  abbrev pub counts_in : Dto Text → Counts
  counts_in d = record { read_cnt = d.read_cnt; like_cnt = d.like_cnt; collect_cnt = d.collect_cnt }
