-- ===== src/Migrator/Rounds.antt =====
-- One round of a validation loop, by how it ends; and the turns of an environment at rest.
use weishu.Base.{ℕ, ◌≡◌, true, none, List, ◌∷◌, ◌++◌, arith}
use weishu.Migrator.Events.{InconsistentEvent}
use weishu.Migrator.Validator.{Turn, Next, stop, go, Progress, returned, loop}

-- A round in which no query fails and Kafka takes every report.
abbrev pub quiet : {T : Type 0} → List T → List T → Turn T
quiet base target = record {
  base = base;
  target = target;
  base_fault = none;
  target_fault = none;
  base_partial = 0;
  target_partial = 0;
  delivers = λ e. true;
}

module _ {T : Type 0} (round : Turn T → ℕ → List InconsistentEvent × Next) (t : Turn T)
    (ts : List (Turn T)) where
  pub loop_stop :
      (o : ℕ) (es : List InconsistentEvent)
      → round t o ≡ (es, stop)
      → loop round (t ∷ ts) o ≡ (es, returned)
  unfolding loop
  loop_stop o es h = ground arith

  pub loop_go :
      (o o' : ℕ) (es more : List InconsistentEvent) (p : Progress)
      → round t o ≡ (es, go o')
      → loop round ts o' ≡ (more, p)
      → loop round (t ∷ ts) o ≡ (es ++ more, p)
  unfolding loop
  loop_go o o' es more p h k = ground arith
