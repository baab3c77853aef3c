-- ===== src/Base/Calls.antt =====
-- How a Go call ends: it returns a value, or it panics (a nil pointer, an index out of range, a
-- division by zero, an explicit `panic`). An `error` that is returned is an `Option`: none is nil.
use mathlib.Core.Bool.{Bool, true, false}
use mathlib.Core.Option.{Option, none, some}

pub data Outcome {ℓ} (A : Type ℓ) : Type ℓ where
  returns : A → Outcome A
  panics : Outcome A

-- `err == nil`
abbrev pub is_nil {ℓ} : {A : Type ℓ} → Option A → Bool
is_nil none = true
is_nil (some a) = false
