-- ===== src/Migrator/Repair.antt =====
-- What a batch of repairs does to the databases, in whatever order and however often a row is named.
use weishu.Base.{
  ℕ, ◌≡◌, refl, ap, ◌∙◌, ◌⊎◌, inl, inr, true, none, List, [], ◌∷◌, arith, ◌==◌, Option-cases,
  if◌then◌else◌,
}
use weishu.Migrator.Table.{Entity, find, IsTable}
use weishu.Migrator.Events.{src, InconsistentEvent}
use weishu.Migrator.Mentions.{mentions, AllFrom}
use weishu.Migrator.Fixer.{Faults, Databases, fix, consume, consume_all}
use weishu.Migrator.Lookup.{
  find-upsert, find-delete, find_id, upsert-IsAscending, delete-IsAscending, table_ext,
}

abbrev pub no_faults : Faults
no_faults = record { base_fault = none; target_fault = none }

-- The messages as they are consumed when no query fails.
abbrev pub without_faults : List InconsistentEvent → List (Faults × InconsistentEvent)
without_faults [] = []
without_faults (e ∷ es) = (no_faults, e) ∷ without_faults es

module _ {T : Type 0} (E : Entity T) where
  -- A repair without faults makes one row of the target that of the base, present or missing, and
  -- leaves every other row alone.
  pub find-fix :
      (id k : ℕ) (base target : List T)
      → find E k (fix E no_faults id base target).1
        ≡ (if id == k then find E k base else find E k target)
  unfolding fix
  find-fix id k base target = elim (Option-cases (find E id base)) [
    | inl e ↦ rw e (ground (arith, find-delete E k id target))
    | inr (t, e) ↦ rw e (ground (arith, find-upsert E k t target, find_id E id base t e))
  ]

  fix-IsTable :
      (id : ℕ) (base target : List T)
      → IsTable E target
      → IsTable E (fix E no_faults id base target).1
  unfolding fix
  fix-IsTable id base target h = elim (Option-cases (find E id base)) [
    | inl e ↦ rw e (delete-IsAscending E 0 id target h)
    | inr (t, e) ↦ rw e (upsert-IsAscending E 0 t target (omega arith) h)
  ]

  consume-src :
      (fs : Faults) (e : InconsistentEvent) (d : Databases T)
      → e.direction ≡ src
      → (consume E fs e d).1 ≡ record d { dst_rows = (fix E fs e.id d.src_rows d.dst_rows).1 }
  unfolding consume
  consume-src fs e d h = ground arith

  repaired : InconsistentEvent → Databases T → Databases T
  repaired e d = record d { dst_rows = (fix E no_faults e.id d.src_rows d.dst_rows).1 }

  consume_all_step :
      (e : InconsistentEvent) (es : List InconsistentEvent) (d : Databases T)
      → e.direction ≡ src
      → consume_all E (without_faults (e ∷ es)) d ≡ consume_all E (without_faults es) (repaired e d)
  unfolding consume_all repaired
  consume_all_step e es d h =
      ap (λ x. consume_all E (without_faults es) x) (consume-src no_faults e d h)

  -- Reports that take the source as the base: the consumer leaves the source alone, and makes every
  -- row of the destination that a report names that of the source.
  pub find-consume_all :
      (es : List InconsistentEvent) (k : ℕ) (d : Databases T)
      → AllFrom src es
      → ((consume_all E (without_faults es) d).src_rows ≡ d.src_rows)
        × (find E k (consume_all E (without_faults es) d).dst_rows
            ≡ (if mentions k es then find E k d.src_rows else find E k d.dst_rows))
  unfolding consume_all repaired
  find-consume_all [] k d a = (refl, refl)
  find-consume_all (e ∷ es) k d a =
      let (same, rows) = find-consume_all es k (repaired e d) a.1 in
      rw (consume_all_step e es d a.0)
        (same, rows ∙ ground (arith, find-fix e.id k d.src_rows d.dst_rows))

  consume_all-IsTable :
      (es : List InconsistentEvent) (d : Databases T)
      → AllFrom src es
      → IsTable E d.dst_rows
      → IsTable E (consume_all E (without_faults es) d).dst_rows
  unfolding repaired consume_all
  consume_all-IsTable [] d a h = h
  consume_all-IsTable (e ∷ es) d a h =
      rw (consume_all_step e es d a.0)
        (consume_all-IsTable es (repaired e d) a.1 (fix-IsTable e.id d.src_rows d.dst_rows h))

  -- Reports that take the source as the base and name every row in which the two tables differ, in
  -- any order, with any repetitions and with any rows besides: consuming them without a fault makes
  -- the destination the same table as the source, and leaves the source alone.
  pub consume_all_converges :
      (es : List InconsistentEvent) (d : Databases T)
      → AllFrom src es
      → IsTable E d.src_rows
      → IsTable E d.dst_rows
      → ((k : ℕ) → (mentions k es ≡ true) ⊎ (find E k d.dst_rows ≡ find E k d.src_rows))
      → ((consume_all E (without_faults es) d).src_rows ≡ d.src_rows)
        × ((consume_all E (without_faults es) d).dst_rows ≡ d.src_rows)
  consume_all_converges es d a hs hd named = (
    (find-consume_all es 0 d a).0,
    table_ext E 0 _ _ (consume_all-IsTable es d a hd) hs
        (λ k. (find-consume_all es k d a).1 ∙ ground (arith, named k)),
  )
