-- ===== src/First/Content.antt =====
-- The bytes of a file of parte-1: those of its blocks, one after the other.
use tecnicofs.Base.{
  ℕ, zero, suc, ◌+◌, ◌*◌, ◌/◌, ◌%◌, ◌≤◌, ◌<◌, ◌≡◌, ◌∙◌, ap, ap₂, refl, arith, Option, some, List,
  ◌∷◌, ℤ,
}
use tecnicofs.Memory.{Memory, read_bytes}
use tecnicofs.Fs.State.{block_size, fs_data_size}
use tecnicofs.First.State.{State, Outcome, done}
use tecnicofs.First.Operations.Read.{read_block}

abbrev pub size_of : State → ℕ → ℕ
size_of s i = (s.inode_table i).i_size

abbrev pub offset_of : State → ℕ → ℕ
offset_of s h = (s.open_file_table h).of_offset

abbrev pub inumber_of : State → ℕ → ℤ
inumber_of s h = (s.open_file_table h).of_inumber

-- The address of a block, 0 if there is none.
abbrev pub base_of : Outcome (Option ℕ) → ℕ
base_of (done (some a)) = a
base_of r = 0

-- The file `i` as a memory of its own.
abbrev pub file_bytes : State → ℕ → Memory
file_bytes s i x = s.fs_data (base_of (read_block i (x / block_size) s) + x % block_size)

abbrev pub content : State → ℕ → List ℕ
content s i = read_bytes (file_bytes s i) 0 (size_of s i)

-- Each block of the file `i` below its size is there.
abbrev pub Stored : State → ℕ → Type 0
Stored s i =
    (k : ℕ)
    → k * block_size < size_of s i
    → (a : ℕ) × (read_block i k s ≡ done (some a)) × (a + block_size ≤ fs_data_size)

pub read_bytes-same :
    (m m' : Memory) (a b n : ℕ)
    → ((x : ℕ) → x < n → m (a + x) ≡ m' (b + x))
    → read_bytes m a n ≡ read_bytes m' b n
unfolding read_bytes
read_bytes-same m m' a b zero h = refl
read_bytes-same m m' a b (suc n) h =
    ap₂ ◌∷◌ (ap m (omega arith) ∙ h 0 (omega arith) ∙ ap m' (omega arith)) (
      read_bytes-same m m' (a + 1) (b + 1) n
        λ x lt. ap m (omega arith) ∙ h (x + 1) (omega arith) ∙ ap m' (omega arith))

-- Bytes within one block.
pub read_bytes-block :
    (s : State) (i k a o n : ℕ)
    → read_block i k s ≡ done (some a)
    → k ≡ o / block_size
    → o % block_size + n ≤ block_size
    → read_bytes s.fs_data (a + o % block_size) n ≡ read_bytes (file_bytes s i) o n
read_bytes-block s i k a o n e ek fit =
    read_bytes-same s.fs_data (file_bytes s i) (a + o % block_size) o n λ x lt.
      let here : (o + x) / block_size ≡ k = omega arith in
      let base : base_of (read_block i ((o + x) / block_size) s) ≡ a =
        ap (λ j. base_of (read_block i j s)) here ∙ ap (λ r. base_of r) e in
      ap s.fs_data (omega (arith, base))
