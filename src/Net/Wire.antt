-- ===== src/Net/Wire.antt =====
-- The bytes of the values in a message: an int has four, a size_t eight, a name BUFFER_SIZE.
use tecnicofs.Base.{
  ℕ, zero, suc, ◌+◌, ◌-◌, ◌*◌, ◌/◌, ◌%◌, ◌<◌, ◌≡◌, ◌∙◌, ap, refl, arith, List, [], ◌∷◌, ◌++◌,
  length, take, drop, Option, none, some, ℤ, pos, negsuc, IsInt, unsigned32, signed32,
  signed32-unsigned32,
}
use tecnicofs.Memory.{Memory, byte_of, load_int}
use tecnicofs.Memory.Ints.{word, word-byte_of, unsigned32-lt}
use tecnicofs.Memory.Strings.{IsString}

-- `BUFFER_SIZE`
abbrev pub buffer_size : ℕ
buffer_size = 40

-- The four bytes of a pattern of 32 bits, before other bytes.
abbrev pub word_bytes : ℕ → List ℕ → List ℕ
word_bytes w bytes = byte_of w 0 ∷ byte_of w 1 ∷ byte_of w 2 ∷ byte_of w 3 ∷ bytes

-- `memcpy(p, &z, sizeof(int))`
abbrev pub int_bytes : ℤ → List ℕ → List ℕ
int_bytes z bytes = word_bytes (unsigned32 z) bytes

-- `memcpy(p, &n, sizeof(size_t))`
abbrev pub size_bytes : ℕ → List ℕ → List ℕ
size_bytes n bytes = word_bytes (n % 0x100000000) (word_bytes (n / 0x100000000) bytes)

-- The bit pattern of an `ssize_t`.
abbrev pub unsigned64 : ℤ → ℕ
unsigned64 (pos n) = n
unsigned64 (negsuc n) = 0x10000000000000000 - n - 1

-- A load of a `size_t`.
unfoldable pub load_size : Memory → ℕ → ℕ
load_size m a =
    word (m a) (m (a + 1)) (m (a + 2)) (m (a + 3))
    + 0x100000000 * word (m (a + 4)) (m (a + 5)) (m (a + 6)) (m (a + 7))

-- `memset` to zero of `n` bytes, and `memcpy` of a name over them, for a name of at most `n` bytes.
abbrev pub name_field : ℕ → List ℕ → List ℕ
name_field zero name = []
name_field (suc n) [] = 0 ∷ name_field n []
name_field (suc n) (c ∷ name) = c ∷ name_field n name

-- The C string in the bytes of a buffer; `none` if no terminator is in it.
abbrev pub c_string : List ℕ → Option (List ℕ)
c_string [] = none
c_string (zero ∷ bytes) = some []
c_string (suc c ∷ bytes) = elim (c_string bytes) [ none ↦ none | some s ↦ some (suc c ∷ s) ]

pub length-name_field : (n : ℕ) (name : List ℕ) → length (name_field n name) ≡ n
length-name_field zero name = refl
length-name_field (suc n) [] = ap suc (length-name_field n [])
length-name_field (suc n) (c ∷ name) = ap suc (length-name_field n name)

pub c_string-name_field :
    (n : ℕ) (name : List ℕ)
    → IsString name
    → length name < n
    → c_string (name_field n name) ≡ some name
c_string-name_field zero name h lt = absurd (omega arith)
c_string-name_field (suc n) [] h lt = refl
c_string-name_field (suc n) (zero ∷ name) h lt = absurd (omega (arith, h.0))
c_string-name_field (suc n) (suc c ∷ name) h lt = rw (c_string-name_field n name h.1 (omega arith))

pub take-name_field :
    (n : ℕ) (name rest : List ℕ) → take n (name_field n name ++ rest) ≡ name_field n name
take-name_field zero name rest = refl
take-name_field (suc n) [] rest = ap (λ r. 0 ∷ r) (take-name_field n [] rest)
take-name_field (suc n) (c ∷ name) rest = ap (λ r. c ∷ r) (take-name_field n name rest)

pub drop-name_field : (n : ℕ) (name rest : List ℕ) → drop n (name_field n name ++ rest) ≡ rest
drop-name_field zero name rest = refl
drop-name_field (suc n) [] rest = drop-name_field n [] rest
drop-name_field (suc n) (c ∷ name) rest = drop-name_field n name rest

-- The four bytes of an `int` at an address.
abbrev pub HasWord : Memory → ℕ → ℕ → Type 0
HasWord m a w =
    (m a ≡ byte_of w 0)
    × (m (a + 1) ≡ byte_of w 1)
    × (m (a + 2) ≡ byte_of w 2)
    × (m (a + 3) ≡ byte_of w 3)

pub load_int-word :
    (m : Memory) (a : ℕ) (z : ℤ) → IsInt z → HasWord m a (unsigned32 z) → load_int m a ≡ z
unfolding load_int
load_int-word m a z h (p, q, r, t) =
    rw (p, q, r, t)
      (ap (λ w. signed32 w) (word-byte_of (unsigned32 z) (unsigned32-lt z h))
        ∙ signed32-unsigned32 z h)

pub load_size-words :
    (m : Memory) (a n : ℕ)
    → n < 0x10000000000000000
    → HasWord m a (n % 0x100000000)
    → HasWord m (a + 4) (n / 0x100000000)
    → load_size m a ≡ n
unfolding load_size
load_size-words m a n h (p, q, r, t) (p', q', r', t') = omega (
  arith,
  p,
  q,
  r,
  t,
  p',
  q',
  r',
  t',
  ap m {x = a + 4 + 1} {y = a + 5} (omega arith),
  ap m {x = a + 4 + 2} {y = a + 6} (omega arith),
  ap m {x = a + 4 + 3} {y = a + 7} (omega arith),
  word-byte_of (n % 0x100000000) (omega arith),
  word-byte_of (n / 0x100000000) (omega arith),
)
