-- ===== src/Memory/Ints.antt =====
-- Loads and stores of an `int`.
use tecnicofs.Base.{
  ℕ, ◌+◌, ◌*◌, ◌≤◌, ◌<◌, ◌≡◌, ◌∙◌, ap, ◌⊎◌, arith, refl, ℤ, pos, negsuc, IsInt, signed32,
  unsigned32, signed32-unsigned32,
}
use tecnicofs.Memory.{Memory, write_bytes, byte_of, load_int, store_int}
use tecnicofs.Memory.Blocks.{write_bytes_in, Agree}

abbrev pub word : ℕ → ℕ → ℕ → ℕ → ℕ
word a b c d = a + 256 * b + 65536 * c + 16777216 * d

pub word-byte_of :
    (w : ℕ) → w < 0x100000000 → word (byte_of w 0) (byte_of w 1) (byte_of w 2) (byte_of w 3) ≡ w
unfolding byte_of
word-byte_of w h = omega arith

pub unsigned32-lt : (z : ℤ) → IsInt z → unsigned32 z < 0x100000000
unsigned32-lt (pos n) h = omega arith
unsigned32-lt (negsuc n) h = omega arith

word-store_int :
    (m : Memory) (a w : ℕ)
    → w < 0x100000000
    → let m' = write_bytes m a 4 (byte_of w) in
      word (m' a) (m' (a + 1)) (m' (a + 2)) (m' (a + 3)) ≡ w
word-store_int m a w h = omega (
  arith,
  word-byte_of w h,
  write_bytes_in m a 4 (byte_of w) 0 a (omega arith) (omega arith),
  write_bytes_in m a 4 (byte_of w) 1 (a + 1) (omega arith) refl,
  write_bytes_in m a 4 (byte_of w) 2 (a + 2) (omega arith) refl,
  write_bytes_in m a 4 (byte_of w) 3 (a + 3) (omega arith) refl,
)

-- What is stored is loaded again.
pub load_int-store_int : (m : Memory) (a : ℕ) (z : ℤ) → IsInt z → load_int (store_int m a z) a ≡ z
unfolding load_int store_int
load_int-store_int m a z h =
    ap (λ w. signed32 w) (word-store_int m a (unsigned32 z) (unsigned32-lt z h))
    ∙ signed32-unsigned32 z h

-- A write elsewhere does not change an `int`.
pub load_int-write_bytes_out :
    (m : Memory) (a n : ℕ) (f : ℕ → ℕ) (b : ℕ)
    → (b + 4 ≤ a) ⊎ (a + n ≤ b)
    → load_int (write_bytes m a n f) b ≡ load_int m b
unfolding load_int write_bytes
load_int-write_bytes_out m a n f b h = ground arith

pub load_int-Agree : (m m' : Memory) (b : ℕ) → Agree m m' b 4 → load_int m b ≡ load_int m' b
unfolding load_int
load_int-Agree m m' b h = rw (
  h b (omega arith) (omega arith),
  h (b + 1) (omega arith) (omega arith),
  h (b + 2) (omega arith) (omega arith),
  h (b + 3) (omega arith) (omega arith),
)
