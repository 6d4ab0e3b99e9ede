-- ===== src/First/Written.antt =====
-- What a write of parte-1/fs/operations.c leaves.
use tecnicofs.Base.{
  ℕ, ◌+◌, ◌*◌, ◌/◌, ◌%◌, ◌<◌, ◌≡◌, ◌≢◌, ap, arith, ◌⊎◌, true, ltb, List, some, pos, update,
}
use Prim.Native.Nat.{max}
use tecnicofs.Memory.{memcpy}
use tecnicofs.Fs.State.{free, taken, block_size, data_blocks}
use tecnicofs.First.State.{State, done, max_direct_blocks}
use tecnicofs.First.Operations.Read.{read_block}
use tecnicofs.First.Content.{size_of, offset_of, inumber_of, base_of, file_bytes}
use tecnicofs.First.Sound.{Sound, block_of, data_block_get-valid}

-- The state `t`, behind a write of `n` bytes of the buffer at the offset `o` of the file `i`.
pub record Wrote (s t : State) (h i o n : ℕ) (buffer : List ℕ) : Type 0 where
  pub sound : Sound t i
  pub size : size_of t i ≡ max (size_of s i) (o + n)
  pub text : (x : ℕ) → x < size_of t i → file_bytes t i x ≡ memcpy (file_bytes s i) o buffer n x
  pub offset : offset_of t h ≡ o + n
  pub kept :
      (x : ℕ)
      → s.free_blocks (x / block_size) ≡ taken
      → ((k : ℕ) → k < max_direct_blocks → block_of s i k ≢ pos (x / block_size))
      → t.fs_data x ≡ s.fs_data x
  pub fresh :
      (k b : ℕ)
      → k < max_direct_blocks
      → block_of t i k ≡ pos b
      → (block_of s i k ≡ pos b) ⊎ (s.free_blocks b ≡ free)
  pub taken_kept : (c : ℕ) → s.free_blocks c ≡ taken → t.free_blocks c ≡ taken
  pub nodes : (j : ℕ) → j ≢ i → t.inode_table j ≡ s.inode_table j
  pub handles : (g : ℕ) → g ≢ h → t.open_file_table g ≡ s.open_file_table g
  pub number : inumber_of t h ≡ inumber_of s h
  pub file_locks : t.open_file_table_locks ≡ s.open_file_table_locks
  pub node_locks : t.inode_table_locks ≡ s.inode_table_locks

pub read_block-direct :
    (s : State) (i k b : ℕ)
    → k < max_direct_blocks
    → block_of s i k ≡ pos b
    → b < data_blocks
    → read_block i k s ≡ done (some (b * block_size))
unfolding read_block
read_block-direct s i k b lt e bound =
    let direct : ltb k max_direct_blocks ≡ true = ground arith in
    rw (direct, e, read_block) (ap (λ o. done o) (data_block_get-valid b bound))

-- A byte of a direct block.
pub file_bytes-direct :
    (s : State) (i x b : ℕ)
    → x / block_size < max_direct_blocks
    → block_of s i (x / block_size) ≡ pos b
    → b < data_blocks
    → file_bytes s i x ≡ s.fs_data (b * block_size + x % block_size)
file_bytes-direct s i x b lt e bound =
    ap (λ r. s.fs_data (base_of r + x % block_size))
      (read_block-direct s i (x / block_size) b lt e bound)

pub taken≢free : taken ≢ free
taken≢free e = cc

pub update_at : {A : Type 0} (f : ℕ → A) (i : ℕ) (a : A) → update f i a i ≡ a
update_at f i a = ground arith
