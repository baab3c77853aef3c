-- ===== src/Migrator/Events.antt =====
-- webook/pkg/migrator/events/inconsistent.go: the reports that go through Kafka.
use weishu.Base.{ℕ}

-- `Direction`: "SRC" and "DST" name the database that is taken as the base; `other` is any other
-- text.
pub data Direction : Type 0 where
  src dst other : Direction

-- `Type`
pub data EventType : Type 0 where
  target_missing neq base_missing : EventType

pub record InconsistentEvent : Type 0 where
  pub id : ℕ
  pub direction : Direction
  pub type : EventType
