-- ===== src/Base/Int.antt =====
-- Signed integers over the native numbers, for the C types `int` and `ssize_t`.
use Prim.Native.Nat.{ℕ, zero, suc, ◌+◌, ◌-◌, ◌<◌}
use mathlib.Core.Path.{◌≡◌}
use mathlib.Core.Bool.{Bool, true, false}
use native.Mathlib.Omega.{arith}
use tecnicofs.Base.Tests.{ltb, ◌==◌, if◌then◌else◌}

-- `negsuc n` is -(n + 1).
pub data ℤ : Type 0 where
  pos : ℕ → ℤ
  negsuc : ℕ → ℤ

abbrev pub minus_one : ℤ
minus_one = negsuc 0

abbrev pub pos_part : ℤ → ℕ
pos_part (pos n) = n
pos_part (negsuc n) = 0

-- `z + 1` and `z - 1`
abbrev pub increment : ℤ → ℤ
increment (pos n) = pos (n + 1)
increment (negsuc zero) = pos 0
increment (negsuc (suc n)) = negsuc n

abbrev pub decrement : ℤ → ℤ
decrement (pos zero) = negsuc 0
decrement (pos (suc n)) = pos n
decrement (negsuc n) = negsuc (suc n)

abbrev pub is_zero : ℤ → Bool
is_zero (pos n) = n == 0
is_zero (negsuc n) = false

-- `0 <= z`
abbrev pub is_nonneg : ℤ → Bool
is_nonneg (pos n) = true
is_nonneg (negsuc n) = false

abbrev pub is_minus_one : ℤ → Bool
is_minus_one (pos n) = false
is_minus_one (negsuc n) = n == 0

-- The C value of a bit pattern of 32 bits, and of one of 64 bits.
abbrev pub signed32 : ℕ → ℤ
signed32 w = if ltb w 0x80000000 then pos w else negsuc (0x100000000 - w - 1)

abbrev pub signed64 : ℕ → ℤ
signed64 w = if ltb w 0x8000000000000000 then pos w else negsuc (0x10000000000000000 - w - 1)

-- The bit pattern of an `int`.
abbrev pub unsigned32 : ℤ → ℕ
unsigned32 (pos n) = n
unsigned32 (negsuc n) = 0x100000000 - n - 1

-- The values of an `int`.
abbrev pub IsInt : ℤ → Type 0
IsInt (pos n) = n < 0x80000000
IsInt (negsuc n) = n < 0x80000000

pub signed32-unsigned32 : (z : ℤ) → IsInt z → signed32 (unsigned32 z) ≡ z
signed32-unsigned32 (pos n) h = ground arith
signed32-unsigned32 (negsuc n) h = ground arith
