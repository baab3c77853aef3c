-- ===== src/Migrator/Validator.antt =====
-- webook/pkg/migrator/validator/validator.go. A turn is one round of a loop: what the two tables
-- hold then, the faults that its queries meet and which reports Kafka takes. The turns are what the
-- environment does; a loop ends by its own return, or is where it is when the turns are over.
use weishu.Base.{
  ℕ, ◌+◌, ◌≡◌, Bool, ◌||◌, ◌==◌, is_nil, false, not, ◌&&◌, Option, none, some, List, [], ◌∷◌, ◌++◌,
  ltb, if◌then◌else◌, length, get_elem?, take, drop, is_empty,
}
use weishu.Base.Int.{ℤ, pos, is_positive}
use weishu.Migrator.Table.{
  Entity, Fault, canceled, deadline_exceeded, failed, DbError, record_not_found, fault, find, has,
}
use weishu.Migrator.Events.{
  Direction, EventType, target_missing, neq, base_missing, InconsistentEvent,
}

-- `fromBase`: which of the two methods it holds.
pub data FromBase : Type 0 where
  full_from_base incr_from_base : FromBase

-- The fields of `Validator` besides the two tables, the producer and the logger.
pub record Validator : Type 0 where
  pub direction : Direction
  pub utime : ℕ
  pub batch_size : ℕ
  pub sleep_interval : ℤ
  pub from_base : FromBase

-- `NewValidator`
abbrev pub new_validator : Direction → Validator
new_validator direction = record {
  direction = direction;
  utime = 0;
  batch_size = 100;
  sleep_interval = pos 0;
  from_base = full_from_base;
}

-- `Full`, `Incr`, `Utime` and `SleepInterval`
abbrev pub full : Validator → Validator
full v = record v { from_base = full_from_base }

abbrev pub incr : Validator → Validator
incr v = record v { from_base = incr_from_base }

abbrev pub with_utime : ℕ → Validator → Validator
with_utime t v = record v { utime = t }

abbrev pub with_sleep_interval : ℤ → Validator → Validator
with_sleep_interval i v = record v { sleep_interval = i }

-- `base_partial` and `target_partial` rows have been read when a `Find` there fails.
pub record Turn (T : Type 0) : Type 0 where
  pub base : List T
  pub target : List T
  pub base_fault : Option Fault
  pub target_fault : Option Fault
  pub base_partial : ℕ
  pub target_partial : ℕ
  pub delivers : InconsistentEvent → Bool

-- After a round: the loop returns, or goes on at an offset.
pub data Next : Type 0 where
  stop : Next
  go : ℕ → Next

pub data Progress : Type 0 where
  returned : Progress
  running : ℕ → Progress

-- A query by offset or by id answers with a row, or an error.
pub data Found (T : Type 0) : Type 0 where
  row : T → Found T
  error : DbError → Found T

abbrev pub first : {T : Type 0} → Option Fault → Option T → Found T
first (some f) r = error (fault f)
first none none = error record_not_found
first none (some t) = row t

-- `Find` into a slice: all rows, or those read before the fault.
abbrev pub find_all : {T : Type 0} → Option Fault → ℕ → List T → List T
find_all none n rows = rows
find_all (some f) n rows = take n rows

-- `notify`: the event that Kafka has afterwards.
abbrev pub notify : (InconsistentEvent → Bool) → Validator → ℕ → EventType → List InconsistentEvent
notify delivers v id typ =
    let e : InconsistentEvent = record { id = id; direction = v.direction; type = typ } in
    if delivers e then e ∷ [] else []

-- After all rows are read: a full validation returns, an incremental one sleeps and tries again.
abbrev pub at_end : Validator → ℕ → Next
at_end v offset = if is_positive v.sleep_interval then go offset else stop

abbrev pub is_listed : ℕ → List ℕ → Bool
is_listed k [] = false
is_listed k (j ∷ js) = (j == k) || is_listed k js

-- `slice.Map` and `slice.DiffSetFunc` of github.com/ecodeclub/ekit, at the functions that the
-- validator gives them: the ids of rows, and the rows whose id no row of the second list has. The
-- library promises no order and no multiplicity of the difference.
pub record Slices {T : Type 0} (E : Entity T) : Type 0 where
  pub map_ids : List T → List ℕ
  pub diff : List T → List T → List T
  pub listed-map_ids : (k : ℕ) (xs : List T) → is_listed k (map_ids xs) ≡ has E k xs
  pub has-diff : (k : ℕ) (xs ys : List T) → has E k (diff xs ys) ≡ has E k xs && not (has E k ys)

module _ {T : Type 0} (E : Entity T) where
  -- `fullFromBase`
  abbrev full_row : Turn T → ℕ → Found T
  full_row t offset = first t.base_fault (get_elem? t.base offset)

  -- `incrFromBase`: its query does not mention `utime`.
  abbrev incr_row : Turn T → ℕ → Found T
  incr_row t offset = first t.base_fault (get_elem? t.base offset)

  abbrev base_row : FromBase → Turn T → ℕ → Found T
  base_row full_from_base = full_row
  base_row incr_from_base = incr_row

  -- The row of the base against what the target answers.
  abbrev pub check : Validator → (InconsistentEvent → Bool) → T → Found T → List InconsistentEvent
  check v delivers src (error record_not_found) = notify delivers v (E.id src) target_missing
  check v delivers src (row dst) =
      if E.compare_to src dst then [] else notify delivers v (E.id src) neq
  check v delivers src (error (fault f)) = []

  base_round : Validator → Turn T → ℕ → Found T → List InconsistentEvent × Next
  base_round v t offset (error (fault canceled)) = ([], stop)
  base_round v t offset (error (fault deadline_exceeded)) = ([], stop)
  base_round v t offset (error record_not_found) = ([], at_end v offset)
  base_round v t offset (error (fault failed)) = ([], go (offset + 1))
  base_round v t offset (row src) =
      (check v t.delivers src (first t.target_fault (find E (E.id src) t.target)), go (offset + 1))

  -- One round of `validateBaseToTarget`.
  unfoldable pub base_to_target : Validator → Turn T → ℕ → List InconsistentEvent × Next
  unfolding base_round
  base_to_target v t offset = base_round v t offset (base_row v.from_base t offset)

  -- `notifyBaseMissing`
  abbrev pub notify_base_missing :
      (InconsistentEvent → Bool) → Validator → List T → List InconsistentEvent
  notify_base_missing delivers v [] = []
  notify_base_missing delivers v (x ∷ xs) =
      notify delivers v (E.id x) base_missing ++ notify_base_missing delivers v xs

  -- `WHERE id IN ?`
  abbrev pub where_in : List ℕ → List T → List T
  where_in ids [] = []
  where_in ids (x ∷ xs) =
      let rest = where_in ids xs in if is_listed (E.id x) ids then x ∷ rest else rest

  -- The end of a round in which the base has some of the rows: a short batch was the last one.
  batch_end : Validator → ℕ → List T → Next
  batch_end v offset batch =
      if ltb (length batch) v.batch_size then at_end v offset else go (offset + length batch)

  module _ (S : Slices E) where
    -- What the base answers for the ids of the batch.
    base_answer : Validator → Turn T → ℕ → List T → List InconsistentEvent × Next
    unfolding batch_end
    base_answer v t offset batch =
        let found = find_all t.base_fault t.base_partial (where_in (S.map_ids batch) t.base) in
        if is_empty found
        then (notify_base_missing t.delivers v batch, go (offset + length batch))
        else (if is_nil t.base_fault
            then (notify_base_missing t.delivers v (S.diff batch found), batch_end v offset batch)
            else ([], go (offset + length batch)))

    batch_round : Validator → Turn T → ℕ → Option Fault → List T → List InconsistentEvent × Next
    unfolding base_answer
    batch_round v t offset (some canceled) batch = ([], stop)
    batch_round v t offset (some deadline_exceeded) batch = ([], stop)
    batch_round v t offset (some failed) batch =
        if is_empty batch then ([], at_end v offset) else ([], go (offset + length batch))
    batch_round v t offset none batch =
        if is_empty batch then ([], at_end v offset) else base_answer v t offset batch

    -- One round of `validateTargetToBase`.
    unfoldable pub target_to_base : Validator → Turn T → ℕ → List InconsistentEvent × Next
    unfolding batch_round
    target_to_base v t offset =
        batch_round v t offset t.target_fault
          (find_all t.target_fault t.target_partial (take v.batch_size (drop offset t.target)))

-- A loop over the turns, with the events that Kafka has at the end.
unfoldable pub loop :
    {T : Type 0}
    → (Turn T → ℕ → List InconsistentEvent × Next)
    → List (Turn T)
    → ℕ
    → List InconsistentEvent × Progress
loop round [] offset = ([], running offset)
loop round (t ∷ ts) offset =
    let (events, next) = round t offset in
    elim next [
      | stop ↦ (events, returned)
      | go offset' ↦ let (more, p) = loop round ts offset' in (events ++ more, p)
    ]

module _ {T : Type 0} (E : Entity T) where
  unfoldable pub validate_base_to_target :
      Validator → List (Turn T) → List InconsistentEvent × Progress
  unfolding loop base_to_target
  validate_base_to_target v ts = loop (base_to_target E v) ts 0

  unfoldable pub validate_target_to_base :
      Slices E → Validator → List (Turn T) → List InconsistentEvent × Progress
  unfolding loop target_to_base
  validate_target_to_base S v ts = loop (target_to_base E S v) ts 0

  -- `Validate`: the two loops run side by side, each with its own turns; it returns nil when both
  -- have returned.
  unfoldable pub validate :
      Slices E
      → Validator
      → List (Turn T)
      → List (Turn T)
      → (List InconsistentEvent × Progress) × (List InconsistentEvent × Progress)
  unfolding validate_base_to_target validate_target_to_base
  validate S v ts us = (validate_base_to_target v ts, validate_target_to_base S v us)
