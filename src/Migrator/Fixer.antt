-- ===== src/Migrator/Fixer.antt =====
-- webook/pkg/migrator/fixer/fixer.go (`Fix`) and webook/pkg/migrator/events/fixer/consumer.go
-- (`Consume`).
use weishu.Base.{ℕ, Option, none, some, List, [], ◌∷◌}
use weishu.Migrator.Table.{Entity, Fault, DbError, fault, find, delete, upsert}
use weishu.Migrator.Events.{Direction, src, dst, other, InconsistentEvent}

-- The faults that the two statements of one repair meet; none where it is answered.
pub record Faults : Type 0 where
  pub base_fault : Option Fault
  pub target_fault : Option Fault

-- The error of `Consume`: the database's, or the unknown direction.
pub data ConsumeError : Type 0 where
  db : DbError → ConsumeError
  unknown_direction : ConsumeError

-- The two databases of the consumer.
pub record Databases (T : Type 0) : Type 0 where
  pub src_rows : List T
  pub dst_rows : List T

-- A statement that changes the table, unless it meets a fault.
abbrev write_rows : {T : Type 0} → Option Fault → List T → List T → Option DbError × List T
write_rows none new old = (none, new)
write_rows (some f) new old = (some (fault f), old)

module _ {T : Type 0} (E : Entity T) where
  -- The row of the base decides: it is written to the target, or the target's row is deleted.
  override : Option Fault → ℕ → Option T → List T → Option DbError × List T
  override f id none target = write_rows f (delete E id target) target
  override f id (some t) target = write_rows f (upsert E t target) target

  fix_by : Option Fault → Option Fault → ℕ → List T → List T → Option DbError × List T
  unfolding override
  fix_by (some f) g id base target = (some (fault f), target)
  fix_by none g id base target = override g id (find E id base) target

  -- `OverrideFixer.Fix`, with the target's rows after it.
  unfoldable pub fix : Faults → ℕ → List T → List T → Option DbError × List T
  unfolding fix_by
  fix fs = fix_by fs.base_fault fs.target_fault

  abbrev consume_error : Option DbError → Option ConsumeError
  consume_error none = none
  consume_error (some e) = some (db e)

  consume_by : Direction → Faults → ℕ → Databases T → Option ConsumeError × Databases T
  consume_by src fs id d =
      let (e, rows) = fix fs id d.src_rows d.dst_rows in
      (consume_error e, record d { dst_rows = rows })
  consume_by dst fs id d =
      let (e, rows) = fix fs id d.dst_rows d.src_rows in
      (consume_error e, record d { src_rows = rows })
  consume_by other fs id d = (some unknown_direction, d)

  -- `Consumer.Consume`
  unfoldable pub consume :
      Faults → InconsistentEvent → Databases T → Option ConsumeError × Databases T
  unfolding consume_by
  consume fs t = consume_by t.direction fs t.id

  -- The messages of a topic, one after another (`Handler.ConsumeClaim`); an error is only logged.
  unfoldable pub consume_all : List (Faults × InconsistentEvent) → Databases T → Databases T
  consume_all [] d = d
  consume_all ((fs, t) ∷ ms) d = consume_all ms (consume fs t d).1
