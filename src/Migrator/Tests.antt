-- ===== src/Migrator/Tests.antt =====
-- Runs of the migrator over small tables, and the theorems at concrete inputs.
use weishu.Base.{
  ℕ, ◌≡◌, refl, ap, ◌↔◌, ◌⊎◌, inl, inr, Bool, true, not, ◌&&◌, ◌||◌, some, List, [], ◌∷◌, arith,
  ◌==◌, if◌then◌else◌, Bool-cases, replicate,
}
use weishu.Migrator.Table.{Entity, find, has}
use weishu.Migrator.Events.{src, target_missing, neq, base_missing, InconsistentEvent}
use weishu.Migrator.Fixer.{Databases, fix, consume_all}
use weishu.Migrator.Mentions.{mentions, AllFrom}
use weishu.Migrator.Repair.{no_faults, without_faults, find-fix, consume_all_converges}
use weishu.Migrator.Rounds.{quiet}
use weishu.Migrator.Reports.{report, validate_base_to_target_reports}
use weishu.Migrator.Batches.{validate_target_to_base_reports}
use weishu.Migrator.Migration.{reports, validate_then_repair}
use weishu.Migrator.Validator.{
  Validator, new_validator, returned, Slices, is_listed, validate_base_to_target,
  validate_target_to_base, validate,
}

-- A row is an id and a value.
abbrev same_row : ℕ × ℕ → ℕ × ℕ → Bool
same_row (i, a) (j, b) = (i == j) && (a == b)

same_row_iff : (x y : ℕ × ℕ) → (same_row x y ≡ true) ↔ (x ≡ y)
same_row_iff (i, a) (j, b) = (λ h. ground arith, λ h. ground arith)

abbrev pair : Entity (ℕ × ℕ)
pair = record { id = λ r. r.0; compare_to = same_row; compare_to_iff = same_row_iff }

abbrev ids_of : List (ℕ × ℕ) → List ℕ
ids_of [] = []
ids_of (x ∷ xs) = x.0 ∷ ids_of xs

abbrev without : List (ℕ × ℕ) → List (ℕ × ℕ) → List (ℕ × ℕ)
without [] ys = []
without (x ∷ xs) ys = let rest = without xs ys in if has pair x.0 ys then rest else x ∷ rest

listed-ids_of : (k : ℕ) (xs : List (ℕ × ℕ)) → is_listed k (ids_of xs) ≡ has pair k xs
listed-ids_of k [] = refl
listed-ids_of k (x ∷ xs) = ap (λ b. (x.0 == k) || b) (listed-ids_of k xs)

has-without :
    (k : ℕ) (xs ys : List (ℕ × ℕ))
    → has pair k (without xs ys) ≡ has pair k xs && not (has pair k ys)
has-without k [] ys = refl
has-without k (x ∷ xs) ys = elim (Bool-cases (x.0 == k)) [
  | inl here ↦
      let e : x.0 ≡ k = ground arith in
      ground (arith, has-without k xs ys, ap (λ j. has pair j ys) e)
  | inr later ↦ ground (arith, has-without k xs ys)
]

abbrev slices : Slices pair
slices = record {
  map_ids = ids_of;
  diff = without;
  listed-map_ids = listed-ids_of;
  has-diff = has-without;
}

abbrev two : Databases (ℕ × ℕ)
two = record {
  src_rows = (1, 10) ∷ (2, 20) ∷ (4, 40) ∷ [];
  dst_rows = (2, 21) ∷ (3, 30) ∷ (4, 40) ∷ [];
}

abbrev v : Validator
v = new_validator src

there : validate_base_to_target pair v (replicate 4 (quiet two.src_rows two.dst_rows)) ≡ (
  record { id = 1; direction = src; type = target_missing }
      ∷ record { id = 2; direction = src; type = neq }
      ∷ [],
  returned,
)
unfolding validate_base_to_target
there = refl

back :
    validate_target_to_base pair slices v (replicate 2 (quiet two.src_rows two.dst_rows))
    ≡ (record { id = 3; direction = src; type = base_missing } ∷ [], returned)
unfolding validate_target_to_base
back = refl

find-fix_example : find pair 2 (fix pair no_faults 2 two.src_rows two.dst_rows).1 ≡ some (2, 20)
find-fix_example = find-fix pair 2 2 two.src_rows two.dst_rows

-- In any order, and with a row that needs no repair.
abbrev four_reports : List InconsistentEvent
four_reports =
    record { id = 3; direction = src; type = base_missing }
    ∷ record { id = 2; direction = src; type = neq }
    ∷ record { id = 4; direction = src; type = neq }
    ∷ record { id = 1; direction = src; type = neq }
    ∷ []

all_named :
    (k : ℕ)
    → (mentions k four_reports ≡ true) ⊎ (find pair k two.dst_rows ≡ find pair k two.src_rows)
all_named k = ground arith

consume_all_converges_example :
    ((consume_all pair (without_faults four_reports) two).src_rows ≡ two.src_rows)
    × ((consume_all pair (without_faults four_reports) two).dst_rows ≡ two.src_rows)
consume_all_converges_example =
    consume_all_converges pair four_reports two (refl, (refl, (refl, (refl, tt)))) (omega arith)
      (omega arith) all_named

validate_base_to_target_reports_example :
    validate_base_to_target pair v (replicate 4 (quiet two.src_rows two.dst_rows))
    ≡ (report pair v two.src_rows two.dst_rows, returned)
validate_base_to_target_reports_example =
    validate_base_to_target_reports pair v two.src_rows two.dst_rows 4 refl (omega arith)

validate_target_to_base_reports_example :
    let (es, p) =
      validate_target_to_base pair slices v (replicate 4 (quiet two.src_rows two.dst_rows)) in
    (p ≡ returned)
    × AllFrom src es
    × ((k : ℕ) → mentions k es ≡ has pair k two.dst_rows && not (has pair k two.src_rows))
validate_target_to_base_reports_example =
    validate_target_to_base_reports pair slices v two.src_rows two.dst_rows 4 refl (omega arith)
      (omega arith)

validate_then_repair_example :
    let r =
      validate pair slices v
        (replicate 4 (quiet two.src_rows two.dst_rows))
        (replicate 4 (quiet two.src_rows two.dst_rows)) in
    (r.0.1 ≡ returned)
    × (r.1.1 ≡ returned)
    × ((consume_all pair (without_faults (reports r)) two).src_rows ≡ two.src_rows)
    × ((consume_all pair (without_faults (reports r)) two).dst_rows ≡ two.src_rows)
validate_then_repair_example =
    validate_then_repair pair slices v two 4 4 refl refl (omega arith) (omega arith) (omega arith)
      (omega arith) (omega arith)
