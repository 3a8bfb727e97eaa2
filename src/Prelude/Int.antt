-- ===== src/Prelude/Int.antt =====
-- Python's whole numbers, as far as the program needs them: `negsuc n` is -(n + 1).
use Prim.Native.Nat.{ℕ, zero, suc}
use mathlib.Core.Bool.{Bool, false}
use enterprise_llm_assistant.Prelude.Equality.{eqb}

pub data ℤ : Type 0 where
  pos : ℕ → ℤ
  negsuc : ℕ → ℤ

-- `-n`
abbrev pub neg : ℕ → ℤ
neg zero = pos 0
neg (suc n) = negsuc n

abbrev pub eqb_int : ℤ → ℤ → Bool
eqb_int (pos m) (pos n) = eqb m n
eqb_int (negsuc m) (negsuc n) = eqb m n
eqb_int (pos m) (negsuc n) = false
eqb_int (negsuc m) (pos n) = false
