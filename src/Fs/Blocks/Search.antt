-- ===== src/Fs/Blocks/Search.antt =====
-- What the search for a free entry, and the two block calls that rest on it, return.
use tecnicofs.Base.{
  ℕ, zero, suc, ◌+◌, ◌≤◌, ◌<◌, ◌≡◌, inl, inr, true, none, some, arith, Option-cases, update, ℤ, pos,
  negsuc, minus_one, pos_part,
}
use tecnicofs.Fs.State.{State, AllocationState, free, taken, data_blocks}
use tecnicofs.Fs.Blocks.{valid_block_number, first_free, data_block_alloc}

pub valid_block_number-lt : (z : ℤ) → valid_block_number z ≡ true → pos_part z < data_blocks
valid_block_number-lt (pos n) h = ground arith
valid_block_number-lt (negsuc n) h = cc

module _ (t : ℕ → AllocationState) where
  pub first_free-none : (n i j : ℕ) → first_free n i t ≡ none → i ≤ j → j < i + n → t j ≡ taken
  unfolding first_free
  first_free-none zero i j e lo hi = absurd (omega arith)
  first_free-none (suc n) i j e lo hi = ground (arith, first_free-none n (i + 1) j)

  pub first_free-some :
      (n i k : ℕ) → first_free n i t ≡ some k → (i ≤ k) × (k < i + n) × (t k ≡ free)
  unfolding first_free
  first_free-some zero i k e = cc
  first_free-some (suc n) i k e = ground (arith, first_free-some n (i + 1) k)

  pub first_free-least : (n i k j : ℕ) → first_free n i t ≡ some k → i ≤ j → j < k → t j ≡ taken
  unfolding first_free
  first_free-least zero i k j e lo hi = cc
  first_free-least (suc n) i k j e lo hi = ground (arith, first_free-least n (i + 1) k j)

-- What a call of data_block_alloc does: it takes the first free block, or all are taken.
pub data Alloc (s : State) (r : ℤ × State) : Type 0 where
  full : ((b : ℕ) → b < data_blocks → s.free_blocks b ≡ taken) → r ≡ (minus_one, s) → Alloc s r
  found :
      (b : ℕ)
      → b < data_blocks
      → s.free_blocks b ≡ free
      → ((c : ℕ) → c < b → s.free_blocks c ≡ taken)
      → r ≡ (pos b, record s { free_blocks = update s.free_blocks b taken })
      → Alloc s r

-- Every call of data_block_alloc either takes the free block of least number, and returns it, or
-- returns -1 and changes nothing, and then all blocks are taken.
pub data_block_alloc-Alloc : (s : State) → Alloc s (data_block_alloc s)
unfolding data_block_alloc
data_block_alloc-Alloc s = elim (Option-cases (first_free data_blocks 0 s.free_blocks)) [
  | inl e ↦
      Alloc.full
        (λ b h. first_free-none s.free_blocks data_blocks 0 b e (omega arith) (omega arith))
        (rw (e, data_block_alloc))
  | inr (b, e) ↦
      let found = first_free-some s.free_blocks data_blocks 0 b e in
      Alloc.found b (omega arith) found.2
        (λ c h. first_free-least s.free_blocks data_blocks 0 b c e (omega arith) h)
        (rw (e, data_block_alloc))
]
