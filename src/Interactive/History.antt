-- ===== src/Interactive/History.antt =====
-- Histories of webook/interactive/repository/interactive.go: what its hashes hold after them.
use weishu.Base.{
  ℕ, ◌≡◌, Bool, true, Option, some, List, [], ◌∷◌, ◌++◌, map, Outcome, returns, panics,
}
use weishu.Interactive.Dao.{Interactive, Collation, DbError, find_by, is_at}
use weishu.Interactive.Cache.{Counts, Hashes, expire}
use weishu.Interactive.Repository.{
  Store, to_domain, to_hash, incr_read, incr_like, decr_like, add_collection_item, batch_incr_read,
  get_shown,
}

-- Calls of the repository, each with the faults of the database and of Redis, and the end of a hash's
-- time. A batch is given as its pairs of a biz and an id.
pub data Operation (Text : Type 0) : Type 0 where
  read : Bool → Bool → ℕ → ℕ → Text → ℕ → Operation Text
  read_batch : (ℕ → Bool) → (ℕ → Bool) → ℕ → (ℕ → ℕ) → List (Text × ℕ) → Operation Text
  like : Bool → Bool → Bool → ℕ → ℕ → ℕ → Text → ℕ → ℕ → Operation Text
  unlike : Bool → Bool → Bool → ℕ → Text → ℕ → ℕ → Operation Text
  collect : Bool → Bool → Bool → ℕ → ℕ → ℕ → Text → ℕ → ℕ → ℕ → Operation Text
  show : Bool → Bool → Bool → Bool → Text → ℕ → Operation Text
  times_out : Text → ℕ → Operation Text

abbrev pub store_after :
    {Text : Type 0} → Outcome (Option DbError × Store Text) → Store Text → Store Text
store_after panics s = s
store_after (returns (e, s')) s = s'

module _ {Text : Type 0} (C : Collation Text) where
  unfoldable pub act : Operation Text → Store Text → Store Text
  act (read f down now new biz id) s = (incr_read C f down now new biz id s).1
  act (read_batch f down now new events) s =
      store_after
        (batch_incr_read C f down now new (map (λ e. e.0) events) (map (λ e. e.1) events) s) s
  act (like f g down now k new biz id uid) s = (incr_like C f g down now k new biz id uid s).1
  act (unlike f g down now biz id uid) s = (decr_like C f g down now biz id uid s).1
  act (collect f g down now k new biz id cid uid) s =
      (add_collection_item C f g down now k new biz id cid uid s).1
  act (show f down g e biz id) s = (get_shown C f down g e biz id s).1
  act (times_out biz id) s = record s { cached = expire C biz id s.cached }

  unfoldable pub run : List (Operation Text) → Store Text → Store Text
  run [] s = s
  run (o ∷ os) s = run os (act o s)

  abbrev pub counts_of : Interactive Text → Counts
  counts_of r = to_hash (to_domain r)

  -- The table shows these counts for the biz and the id.
  abbrev pub Shows : Store Text → Text → ℕ → Counts → Type 0
  Shows s biz id c =
      (r : Interactive Text) × (find_by (is_at C biz id) s.db.counts ≡ some r) × (counts_of r ≡ c)

  -- It has shown them after some of the calls, from the first on.
  abbrev pub HasShown : List (Operation Text) → Store Text → Text → ℕ → Counts → Type 0
  HasShown os s biz id c =
      (before : List (Operation Text)) × (after : List (Operation Text)) × (os ≡ before ++ after)
      × Shows (run before s) biz id c

module _ {Text : Type 0} (C : Collation Text)
    (exact : (a b : Text) → C.equal a b ≡ true → a ≡ b) where
  -- A loop over the hashes that has returned has left them.
  abbrev KeepsAll : Outcome (Hashes Text) → Hashes Text → Type 0
  KeepsAll panics h = Unit
  KeepsAll (returns h') h = (b : Text) (i : ℕ) → h' b i ≡ h b i
