-- ===== src/Base/Int.antt =====
-- Signed integers, as far as the program compares them with zero.
use Prim.Native.Nat.{ℕ}
use mathlib.Core.Bool.{Bool, true, false}

-- `negsuc n` is -(n + 1).
pub data ℤ : Type 0 where
  pos : ℕ → ℤ
  negsuc : ℕ → ℤ

-- `0 < i`
abbrev pub is_positive : ℤ → Bool
is_positive (pos n) = elim n [ ℕ.zero ↦ false | ℕ.suc m ↦ true ]
is_positive (negsuc n) = false

-- `i + 1` and `i - 1`
abbrev pub increment : ℤ → ℤ
increment (pos n) = pos (ℕ.suc n)
increment (negsuc n) = elim n [ ℕ.zero ↦ pos 0 | ℕ.suc m ↦ negsuc m ]

abbrev pub decrement : ℤ → ℤ
decrement (pos n) = elim n [ ℕ.zero ↦ negsuc 0 | ℕ.suc m ↦ pos m ]
decrement (negsuc n) = negsuc (ℕ.suc n)
