-- ===== src/Memory.antt =====
-- The byte memory `fs_data` of parte-2/fs/state.c, and what its code uses of the C library there:
-- memcpy, strncpy, strncmp, strlen, and loads and stores of an `int` (four bytes, the least first).
-- A C string is the list of its bytes before the terminator, none of them 0.
pub mod Blocks
pub mod Ints
pub mod Strings
use tecnicofs.Base.{
  ℕ, zero, suc, ◌+◌, ◌-◌, ◌*◌, ◌/◌, ◌%◌, Bool, true, false, ◌&&◌, ◌||◌, List, [], ◌∷◌, get_or, ltb,
  leb, ◌==◌, if◌then◌else◌, ℤ, signed32, unsigned32,
}

abbrev pub Memory : Type 0
Memory = ℕ → ℕ

-- Writes the bytes `f 0`, ..., `f (n - 1)` from the address `a` on.
unfoldable pub write_bytes : Memory → ℕ → ℕ → (ℕ → ℕ) → Memory
write_bytes m a n f x = if leb a x && ltb x (a + n) then f (x - a) else m x

-- The `n` bytes from the address `a` on.
unfoldable pub read_bytes : Memory → ℕ → ℕ → List ℕ
read_bytes m a zero = []
read_bytes m a (suc n) = m a ∷ read_bytes m (a + 1) n

-- `memcpy(a, buffer, n)`, for a buffer of at least `n` bytes.
unfoldable pub memcpy : Memory → ℕ → List ℕ → ℕ → Memory
memcpy m a buffer n = write_bytes m a n (λ k. get_or buffer k 0)

-- `strncpy(a, s, n)`: the first `n` bytes of the string, filled up with zeros.
unfoldable pub strncpy : Memory → ℕ → List ℕ → ℕ → Memory
strncpy m a s n = write_bytes m a n (λ k. get_or s k 0)

-- `strncmp(a, s, n) == 0`
unfoldable pub strncmp_eq : Memory → ℕ → List ℕ → ℕ → Bool
strncmp_eq m a s zero = true
strncmp_eq m a [] (suc n) = m a == 0
strncmp_eq m a (c ∷ s) (suc n) = m a == c && (c == 0 || strncmp_eq m (a + 1) s n)

-- The bytes of a 32-bit pattern.
unfoldable pub byte_of : ℕ → ℕ → ℕ
byte_of w zero = w % 256
byte_of w (suc k) = byte_of (w / 256) k

unfoldable pub load_int : Memory → ℕ → ℤ
load_int m a = signed32 (m a + 256 * m (a + 1) + 65536 * m (a + 2) + 16777216 * m (a + 3))

unfoldable pub store_int : Memory → ℕ → ℤ → Memory
store_int m a z = write_bytes m a 4 (byte_of (unsigned32 z))
