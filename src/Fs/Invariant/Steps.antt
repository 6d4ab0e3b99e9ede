-- ===== src/Fs/Invariant/Steps.antt =====
-- The changes of the tables that the operations are made of, each within the invariant.
use tecnicofs.Base.{ℕ, ◌+◌, ◌≤◌, ◌<◌, ◌≡◌, ◌≢◌, refl, ◌⊎◌, arith, update, ℤ, pos}
use tecnicofs.Memory.{Memory, write_bytes}
use tecnicofs.Memory.Ints.{load_int-write_bytes_out}
use tecnicofs.Fs.State.{State, taken, block_size, max_open_files}
use tecnicofs.Fs.Inodes.{set_inode, d_inumber_at}
use tecnicofs.Fs.Operations.{set_offset}
use tecnicofs.Fs.Invariant.{
  InUse, size_of, block_of, block_at, inumber_of, OwnsBlock, Alone, IsValid, block-valid,
  block-taken, block-alone, entries-transfer, root_entry-cong,
}

-- The states after one change of an i-node, or of the bytes.
abbrev pub with_block : State → ℕ → ℤ → State
with_block s i z = set_inode s i (record (s.inode_table i) { i_data_block = z })

abbrev pub with_size : State → ℕ → ℕ → State
with_size s i size = set_inode s i (record (s.inode_table i) { i_size = size })

abbrev pub with_data : State → Memory → State
with_data s m = record s { fs_data = m }

-- A block is taken.
pub take_block-IsValid :
    {s : State} (b : ℕ)
    → IsValid s
    → IsValid (record s { free_blocks = update s.free_blocks b taken })
take_block-IsValid {s} b v = record {
  root_in_use = v.root_in_use;
  root_type = v.root_type;
  root_size = v.root_size;
  fits = v.fits;
  owns = λ i u d. let o = v.owns i u d in (o.0, ground arith, o.2);
  opened = v.opened;
  counted = v.counted;
  entries = v.entries;
}

-- The block number of an empty file changes.
pub set_block-IsValid :
    {s : State} (i : ℕ) (z : ℤ) → 0 < i → size_of s i ≡ 0 → IsValid s → IsValid (with_block s i z)
set_block-IsValid {s} i z p e v = record {
  root_in_use = v.root_in_use;
  root_type = ground (arith, v.root_type);
  root_size = ground (arith, v.root_size);
  fits = λ j u. ground (arith, v.fits j u);
  owns = λ j u d. (
    ground (arith, block-valid v j),
    ground (arith, block-taken v j),
    λ j' u' d' q. ground (arith, block-alone v j j'),
  );
  opened = λ h l t. ground (arith, v.opened h l t);
  counted = v.counted;
  entries =
      entries-transfer s (with_block s i z) v
        (λ k l. root_entry-cong s (with_block s i z) k (ground arith) refl) (λ j u. u);
}

-- The entry `h` names the file `i`, and both are in use.
abbrev pub Refers : State → ℕ → ℕ → Type 0
Refers s h i =
    (h < max_open_files)
    × (s.free_open_file_entries h ≡ taken)
    × (inumber_of s h ≡ pos i)
    × (0 < i)
    × InUse s i

-- A block that is the file's own is not the root directory's.
pub block-ne-root :
    {s : State} (i : ℕ) → 0 < i → Alone s i → IsValid s → block_of s 0 ≢ block_of s i
block-ne-root {s} i p a v e = omega (arith, a 0 v.root_in_use (omega (arith, v.root_size)) e)

-- The offset of an open entry changes within the file.
pub set_offset-IsValid :
    {s : State} (h i offset : ℕ)
    → Refers s h i
    → offset ≤ size_of s i
    → IsValid s
    → IsValid (set_offset s h offset)
set_offset-IsValid {s} h i offset r le v = record {
  root_in_use = v.root_in_use;
  root_type = v.root_type;
  root_size = v.root_size;
  fits = v.fits;
  owns = v.owns;
  opened = λ g l t. ground (arith, v.opened g l t);
  counted = v.counted;
  entries = v.entries;
}

-- Bytes outside of the root directory's block change.
pub write_bytes-IsValid :
    {s : State} (a n : ℕ) (f : ℕ → ℕ)
    → (a + n ≤ block_at s 0) ⊎ (block_at s 0 + block_size ≤ a)
    → IsValid s
    → IsValid (with_data s (write_bytes s.fs_data a n f))
write_bytes-IsValid {s} a n f out v = record {
  root_in_use = v.root_in_use;
  root_type = v.root_type;
  root_size = v.root_size;
  fits = v.fits;
  owns = v.owns;
  opened = v.opened;
  counted = v.counted;
  entries =
      entries-transfer s (with_data s (write_bytes s.fs_data a n f)) v
        (λ k l.
          load_int-write_bytes_out s.fs_data a n f (d_inumber_at (block_at s 0) k) (ground arith))
        (λ j u. u);
}

-- A file grows within its block.
pub grow-IsValid :
    {s : State} (i size : ℕ)
    → 0 < i
    → InUse s i
    → OwnsBlock s i
    → size_of s i ≤ size
    → size ≤ block_size
    → IsValid s
    → IsValid (with_size s i size)
grow-IsValid {s} i size p u o le fits v = record {
  root_in_use = v.root_in_use;
  root_type = ground (arith, v.root_type);
  root_size = ground (arith, v.root_size);
  fits = λ j w. ground (arith, v.fits j w);
  owns = λ j w d. (
    ground (arith, block-valid v j),
    ground (arith, block-taken v j),
    λ j' w' d' q. ground (arith, block-alone v j j', o.2 j', o.2 j),
  );
  opened = λ h l t. ground (arith, v.opened h l t);
  counted = v.counted;
  entries =
      entries-transfer s (with_size s i size) v
        (λ k l. root_entry-cong s (with_size s i size) k (ground arith) refl) (λ j w. w);
}
