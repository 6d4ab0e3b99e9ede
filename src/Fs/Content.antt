-- ===== src/Fs/Content.antt =====
-- The content of a file, as its bytes, and when it stays.
use tecnicofs.Base.{
  ℕ, ◌+◌, ◌≤◌, ◌<◌, ◌≡◌, ◌≢◌, inl, inr, arith, ◌∙◌, List, ◌==◌, Bool-cases, sym, length,
}
use tecnicofs.Memory.{read_bytes, write_bytes}
use tecnicofs.Memory.Blocks.{
  Agree, read_bytes-Agree, read_bytes-cong, read_bytes-zero, write_bytes_out, length-read_bytes,
}
use tecnicofs.Fs.State.{State, block_size}
use tecnicofs.Fs.Invariant.{InUse, size_of, block_of, block_at, IsValid, Alone}

-- The bytes of the i-node `i`, as many as its size.
abbrev pub content : State → ℕ → List ℕ
content s i = read_bytes s.fs_data (block_at s i) (size_of s i)

pub length-content : (s : State) (i : ℕ) → length (content s i) ≡ size_of s i
length-content s i = length-read_bytes s.fs_data (block_at s i) (size_of s i)

-- All i-nodes in use but `i` have the content that they had.
abbrev pub OthersKept : State → State → ℕ → Type 0
OthersKept s t i = (j : ℕ) → InUse s j → j ≢ i → content t j ≡ content s j

-- The content depends on the size, on the block, and on the bytes of the block.
pub content-cong :
    (s t : State) (j : ℕ)
    → size_of t j ≡ size_of s j
    → (0 < size_of s j → block_of t j ≡ block_of s j)
    → Agree t.fs_data s.fs_data (block_at s j) (size_of s j)
    → content t j ≡ content s j
content-cong s t j hs hb agree = elim (Bool-cases (size_of s j == 0)) [
  | inl z ↦
      read_bytes-zero t.fs_data (block_at t j) (size_of t j) (ground arith)
      ∙ sym (read_bytes-zero s.fs_data (block_at s j) (size_of s j) (ground arith))
  | inr d ↦
      read_bytes-cong t.fs_data (omega (arith, hb (ground arith))) hs
      ∙ read_bytes-Agree t.fs_data s.fs_data (block_at s j) (size_of s j) agree
]

-- A write inside the block of `i` keeps the content of the other i-nodes.
pub block-Agree :
    {s : State} (i j a n : ℕ) (f : ℕ → ℕ)
    → IsValid s
    → Alone s i
    → InUse s j
    → j ≢ i
    → size_of s j ≤ block_size
    → block_at s i ≤ a
    → a + n ≤ block_at s i + block_size
    → Agree (write_bytes s.fs_data a n f) s.fs_data (block_at s j) (size_of s j)
block-Agree {s} i j a n f v alone u ne fits lo hi x p q =
    write_bytes_out s.fs_data a n f x
      (omega (arith, λ (e : block_of s j ≡ block_of s i). ne (alone j u (omega arith) e)))
