-- ===== src/Migrator/Migration.antt =====
-- A full validation and the repairs that it asks for, end to end.
use weishu.Base.{
  ℕ, ◌<◌, ◌≡◌, refl, sym, ◌∙◌, ◌⊎◌, inl, inr, true, false, not, ◌&&◌, List, ◌++◌, arith, length,
  replicate, Option-cases,
}
use weishu.Base.Int.{is_positive}
use weishu.Migrator.Table.{Entity, find, has, IsTable}
use weishu.Migrator.Events.{src, InconsistentEvent}
use weishu.Migrator.Fixer.{Databases, consume_all}
use weishu.Migrator.Lookup.{has_of_find, has_of_missing}
use weishu.Migrator.Mentions.{mentions, AllFrom, mentions-append, AllFrom-append}
use weishu.Migrator.Repair.{without_faults, consume_all_converges}
use weishu.Migrator.Rounds.{quiet}
use weishu.Migrator.Reports.{
  report, report-AllFrom, mentions-report, validate_base_to_target_reports,
}
use weishu.Migrator.Batches.{validate_target_to_base_reports}
use weishu.Migrator.Validator.{
  Validator, Slices, Progress, returned, validate, validate_target_to_base,
}

-- All that Kafka has after both loops; the order of the two does not matter to the repairs.
abbrev pub reports :
    (List InconsistentEvent × Progress) × (List InconsistentEvent × Progress)
    → List InconsistentEvent
reports ((es, p), (fs, q)) = es ++ fs

module _ {T : Type 0} (E : Entity T) (S : Slices E) (v : Validator) (d : Databases T) where
  named :
      (fs : List InconsistentEvent) (k : ℕ)
      → mentions k fs ≡ has E k d.dst_rows && not (has E k d.src_rows)
      → (mentions k (report E v d.src_rows d.dst_rows ++ fs) ≡ true)
        ⊎ (find E k d.dst_rows ≡ find E k d.src_rows)
  named fs k m = elim (Option-cases (find E k d.src_rows)) [
    | inr (x, e) ↦ ground (
      arith,
      mentions-report E v k d.src_rows d.dst_rows x e,
      mentions-append k (report E v d.src_rows d.dst_rows) fs,
    )
    | inl e ↦ elim (Option-cases (find E k d.dst_rows)) [
      | inl f ↦ inr (f ∙ sym e)
      | inr (y, f) ↦ ground (
        arith,
        m,
        has_of_find E k d.dst_rows y f,
        has_of_missing E k d.src_rows e,
        mentions-append k (report E v d.src_rows d.dst_rows) fs,
      )
    ]
  ]

  -- The source is the base, both tables have their rows in the order of their keys and stand still,
  -- no query fails and Kafka takes every report: then both loops of a full validation return, and
  -- consuming their reports without a fault makes the destination the same table as the source.
  pub validate_then_repair :
      (n m : ℕ)
      → v.direction ≡ src
      → is_positive v.sleep_interval ≡ false
      → 0 < v.batch_size
      → length d.src_rows < n
      → length d.dst_rows < m
      → IsTable E d.src_rows
      → IsTable E d.dst_rows
      → let r =
          validate E S v
            (replicate n (quiet d.src_rows d.dst_rows))
            (replicate m (quiet d.src_rows d.dst_rows)) in
        (r.0.1 ≡ returned)
        × (r.1.1 ≡ returned)
        × ((consume_all E (without_faults (reports r)) d).src_rows ≡ d.src_rows)
        × ((consume_all E (without_faults (reports r)) d).dst_rows ≡ d.src_rows)
  unfolding validate
  validate_then_repair n m dir s b hn hm ts td =
      let there = validate_base_to_target_reports E v d.src_rows d.dst_rows n s hn in
      let (p, a, names) = validate_target_to_base_reports E S v d.src_rows d.dst_rows m s b hm in
      let es = (validate_target_to_base E S v (replicate m (quiet d.src_rows d.dst_rows))).0 in
      let from : AllFrom src (report E v d.src_rows d.dst_rows ++ es) =
        rw (← dir) (AllFrom-append v.direction _ _ (report-AllFrom E v d.src_rows d.dst_rows) a) in
      let (same, fixed) =
        consume_all_converges E (report E v d.src_rows d.dst_rows ++ es) d from ts td
          (λ k. named es k (names k)) in
      rw there (refl, p, same, fixed)
