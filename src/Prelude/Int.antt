-- ===== src/Prelude/Int.antt =====
-- Signed integers over the native numbers, under the library's names.
use Prim.Native.Nat.{ℕ, zero, suc}
use mathlib.Core.Bool.{Bool, true, false}

-- `negsuc n` is -(n + 1).
pub data ℤ : Type 0 where
  pos : ℕ → ℤ
  negsuc : ℕ → ℤ

-- z <= 0
abbrev pub is_nonpos : ℤ → Bool
is_nonpos (pos zero) = true
is_nonpos (pos (suc n)) = false
is_nonpos (negsuc n) = true

abbrev pub to_ℕ : ℤ → ℕ
to_ℕ (pos n) = n
to_ℕ (negsuc n) = 0
