-- ===== src/Fs/Write/Block.antt =====
-- The block that a write of parte-2/fs/operations.c writes into, allocated for an empty file.

use tecnicofs.Base.{
  ℕ, ◌<◌, ◌≡◌, refl, inl, inr, arith, true, false, pos, minus_one, update, Bool-cases, ◌==◌,
}
use tecnicofs.Fs.State.{State, free, taken, data_blocks}
use tecnicofs.Fs.Blocks.{data_block_alloc}
use tecnicofs.Fs.Blocks.Search.{Alloc, full, found, data_block_alloc-Alloc}
use tecnicofs.Fs.Operations.{ensure_block}
use tecnicofs.Fs.Invariant.{InUse, size_of, IsValid, OwnsBlock, block-taken}
use tecnicofs.Fs.Invariant.Steps.{with_block, take_block-IsValid, set_block-IsValid}
use tecnicofs.Fs.Content.{content, content-cong}

-- The state after `ensure_block i`: the file has a block of its own, or there is none left.
pub data Ensured (s : State) (i : ℕ) (t : State) : Type 0 where
  had : 0 < size_of s i → t ≡ s → Ensured s i t
  got :
      (b : ℕ)
      → size_of s i ≡ 0
      → b < data_blocks
      → s.free_blocks b ≡ free
      → t ≡ with_block (record s { free_blocks = update s.free_blocks b taken }) i (pos b)
      → Ensured s i t
  none_left :
      size_of s i ≡ 0
      → ((b : ℕ) → b < data_blocks → s.free_blocks b ≡ taken)
      → t ≡ with_block s i minus_one
      → Ensured s i t

ensure_block-empty :
    (s : State) (i : ℕ)
    → (size_of s i == 0) ≡ true
    → Alloc s (data_block_alloc s)
    → Ensured s i (ensure_block i s)
unfolding ensure_block
ensure_block-empty s i z (full all q) = none_left (ground arith) all (rw (z, q))
ensure_block-empty s i z (found b lt is_free _ q) = got b (ground arith) lt is_free (rw (z, q))

pub ensure_block-had : (s : State) (i : ℕ) → 0 < size_of s i → ensure_block i s ≡ s
unfolding ensure_block
ensure_block-had s i d = let z : (size_of s i == 0) ≡ false = ground arith in rw z

pub ensure_block-Ensured : (s : State) (i : ℕ) → Ensured s i (ensure_block i s)
unfolding ensure_block
ensure_block-Ensured s i = elim (Bool-cases (size_of s i == 0)) [
  | inl z ↦ ensure_block-empty s i z (data_block_alloc-Alloc s)
  | inr d ↦ had (ground arith) (rw d)
]

-- What the write relies on once the file has a block.
pub record Ready (s : State) (i : ℕ) (t : State) : Type 0 where
  pub valid : IsValid t
  pub owns : OwnsBlock t i
  pub size : size_of t i ≡ size_of s i
  pub kept : (j : ℕ) → InUse s j → content t j ≡ content s j

pub got-Ready :
    {s : State} (i b : ℕ)
    → 0 < i
    → InUse s i
    → size_of s i ≡ 0
    → b < data_blocks
    → s.free_blocks b ≡ free
    → IsValid s
    → Ready s i (with_block (record s { free_blocks = update s.free_blocks b taken }) i (pos b))
got-Ready {s} i b p u e lt is_free v =
    let s1 : State = record s { free_blocks = update s.free_blocks b taken } in
    let t : State = with_block s1 i (pos b) in
    record {
      valid = set_block-IsValid {s = s1} i (pos b) p e (take_block-IsValid b v);
      owns = (ground arith, ground arith, λ j w d q. ground (arith, block-taken v j));
      size = ground arith;
      kept = λ j w. content-cong s t j (ground arith) (λ d. ground arith) (λ x _ _. refl);
    }
