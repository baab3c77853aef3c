-- ===== src/Interactive/Consumer.antt =====
-- webook/interactive/events/consumer.go, `BatchConsume`: a read event is the id of an article.
use weishu.Base.{
  ap, ◌∙◌, ℕ, suc, ◌+◌, ◌≡◌, refl, Bool, true, false, ◌&&◌, Option, none, List, [], ◌∷◌, ◌==◌,
  length, map, Outcome, returns, if◌then◌else◌,
}
use weishu.Interactive.Dao.{Collation, DbError, batch_incr_read_cnt}
use weishu.Interactive.Cache.{Hashes}
use weishu.Interactive.Counts.{reads, occurrences, reads-batch_incr_read_cnt}
use weishu.Interactive.Repository.{Store, incr_each, batch_incr_read}

module _ {Text : Type 0} (C : Collation Text) (article : Text) where
  unfoldable pub batch_consume :
      (ℕ → Bool)
      → (ℕ → Bool)
      → ℕ
      → (ℕ → ℕ)
      → List ℕ
      → Store Text
      → Outcome (Option DbError × Store Text)
  batch_consume db_fails down now new_id events s =
      batch_incr_read C db_fails down now new_id (map (λ aid. article) events) events s

  -- How many of the events are of this article.
  abbrev pub events_of : ℕ → List ℕ → ℕ
  events_of id [] = 0
  events_of id (aid ∷ events) = (if aid == id then 1 else 0) + events_of id events

  incr_each-returns :
      (down : ℕ → Bool) (i : ℕ) (events : List ℕ) (h : Hashes Text)
      → (h' : Hashes Text) × (incr_each C down i (map (λ aid. article) events) events h
          ≡ returns h')
  unfolding incr_each
  incr_each-returns down i [] h = (h, refl)
  incr_each-returns down i (id ∷ events) h = incr_each-returns down (suc i) events _

  length-articles : (events : List ℕ) → length (map (λ aid. article) events) ≡ length events
  length-articles [] = refl
  length-articles (id ∷ events) = ap suc (length-articles events)

  occurrences-articles :
      (id : ℕ) (events : List ℕ)
      → C.same article article ≡ true
      → occurrences C article id (map (λ aid. article) events) events ≡ events_of id events
  occurrences-articles id [] h = refl
  occurrences-articles id (aid ∷ events) h =
      ap
        (λ b.
          (if b && aid == id then 1 else 0)
          + occurrences C article id (map (λ aid. article) events) events)
        h
      ∙ ap (λ n. (if aid == id then 1 else 0) + n) (occurrences-articles id events h)

  -- When no statement fails, `BatchConsume` returns nil, whatever Redis does, and the reads of every
  -- article have grown by the number of events of it.
  pub reads-batch_consume :
      ((a : Text) → C.same a a ≡ true)
      → ((a b c : Text) → C.same a b ≡ true → C.same c a ≡ C.same c b)
      → ((a b c : Text) → C.same c a ≡ true → C.same c b ≡ true → C.same a b ≡ true)
      → (down : ℕ → Bool) (now : ℕ) (new_id : ℕ → ℕ) (events : List ℕ) (id : ℕ) (s : Store Text)
      → (s' : Store Text) × (batch_consume (λ i. false) down now new_id events s
          ≡ returns (none, s'))
        × (reads C article id s'.db.counts ≡ events_of id events + reads C article id s.db.counts)
  unfolding batch_consume batch_incr_read
  reads-batch_consume same_refl same_left same_join down now new_id events id s =
      let (o, rows) =
        batch_incr_read_cnt C (λ i. false) now new_id 0 (map (λ aid. article) events) events
          s.db.counts in
      let (done, more) =
        reads-batch_incr_read_cnt C same_refl same_left same_join now 0 new_id
          (map (λ aid. article) events) events article id s.db.counts (length-articles events) in
      let (h, ended) = incr_each-returns down 0 events s.cached in
      (
        record { db = record s.db { counts = rows }; cached = h },
        rw (done, ended) refl,
        more
            ∙ ap (λ n. n + reads C article id s.db.counts)
                (occurrences-articles id events (same_refl article)),
      )
