-- ===== src/First/Writes.antt =====
-- What tfs_write of parte-1/fs/operations.c does within the direct blocks of a file.
use tecnicofs.Base.{
  ℕ, ◌+◌, ◌-◌, ◌*◌, ◌/◌, ◌%◌, ◌≤◌, ◌<◌, ◌≡◌, ◌∙◌, ap, refl, arith, true, false, ◌==◌, List, length,
  take, overwrite, ℤ, pos, minus_one, signed64, update,
}
use tecnicofs.Memory.{memcpy}
use tecnicofs.Memory.Blocks.{read_bytes-memcpy, read_bytes-Agree}
use tecnicofs.Fs.State.{taken, block_size, data_blocks}
use tecnicofs.Fs.Operations.{size_mod}
use tecnicofs.First.State.{State, Outcome, done, ◌>>=◌, max_direct_blocks}
use tecnicofs.First.Operations.Transfer.{end_blocks}
use tecnicofs.First.Operations.Write.{Written, write_loop, write_locked, tfs_write, finish_write}
use tecnicofs.First.Content.{size_of, offset_of, file_bytes, content}
use tecnicofs.First.Sound.{Sound}
use tecnicofs.First.WriteLoop.{Looping, wrote, disk_full, write_loop-Looping}
use tecnicofs.First.Ends.{end_blocks-enough, end_blocks-after}
use tecnicofs.First.Operations.Read.{read_block}
use tecnicofs.First.Written.{Wrote}
use tecnicofs.First.Locked.{Ready, with_locks, without_locks, with_file-Ready, update_back}

-- Behind the unlocking, what was written with the locks held.
Wrote-unlocked :
    {s t : State} {h i o n : ℕ} {buffer : List ℕ}
    → Ready s h i
    → Wrote (with_locks h i s) t h i o n buffer
    → Wrote s (without_locks h i t) h i o n buffer
unfolding read_block
Wrote-unlocked {s} {t} {h} {i} r w = record {
  sound = w.sound;
  size = w.size;
  text = w.text;
  offset = w.offset;
  kept = w.kept;
  fresh = w.fresh;
  taken_kept = w.taken_kept;
  nodes = w.nodes;
  handles = w.handles;
  number = w.number;
  file_locks =
      ap (λ f. update f h false) w.file_locks
      ∙ update_back s.open_file_table_locks h true false r.file_free;
  node_locks =
      ap (λ f. update f i false) w.node_locks
      ∙ update_back s.inode_table_locks i true false r.node_free;
}

-- The bytes of the file behind a write.
pub content-Wrote :
    {s t : State} {h i o n : ℕ} {buffer : List ℕ}
    → o ≤ size_of s i
    → n ≤ length buffer
    → Wrote s t h i o n buffer
    → content t i ≡ overwrite (content s i) o (take n buffer)
content-Wrote {s} {t} {h} {i} {o} {n} {buffer} le has w =
    read_bytes-Agree (file_bytes t i) (memcpy (file_bytes s i) (0 + o) buffer n) 0 (size_of t i)
      (λ x lo hi.
        w.text x (omega arith) ∙ ap (λ a. memcpy (file_bytes s i) a buffer n x) (omega arith))
    ∙ read_bytes-memcpy (file_bytes s i) 0 (size_of s i) o n (size_of t i) buffer le has w.size

-- What tfs_write does.
pub data Writing (s : State) (h i n : ℕ) (buffer : List ℕ) (r : Outcome (ℤ × State)) : Type 0 where
  writes :
      (t : State)
      → r ≡ done (pos n, t)
      → Wrote s t h i (offset_of s h) n buffer
      → content t i ≡ overwrite (content s i) (offset_of s h) (take n buffer)
      → Writing s h i n buffer r
  no_block_left :
      (t : State)
      → r ≡ done (minus_one, t)
      → ((b : ℕ) → b < data_blocks → t.free_blocks b ≡ taken)
      → Writing s h i n buffer r

Writing-eq :
    {s : State} {h i n : ℕ} {buffer : List ℕ} {r r' : Outcome (ℤ × State)}
    → r' ≡ r
    → Writing s h i n buffer r
    → Writing s h i n buffer r'
Writing-eq e (writes t q w c) = writes t (e ∙ q) w c
Writing-eq e (no_block_left t q f) = no_block_left t (e ∙ q) f

pub write_locked-loop :
    (h i n : ℕ) (buffer : List ℕ) (s : State)
    → 0 < n
    → let o = offset_of s h in
      write_locked h i buffer n s ≡ (
        write_loop
          (end_blocks o n - o / block_size)
          (o / block_size)
          (end_blocks o n)
          h
          i
          buffer
          n
          0
          s
        >>= λ written. done (finish_write h i written))
unfolding write_locked
write_locked-loop h i n buffer s some_bytes =
    let nonzero : (n == 0) ≡ false = ground arith in rw (nonzero, write_locked) refl

Looping-finished :
    {s : State} {h i n : ℕ} {buffer : List ℕ} {r : Outcome Written}
    → Ready s h i
    → offset_of s h ≤ size_of s i
    → n ≤ length buffer
    → n < 0x8000000000000000
    → Looping (with_locks h i s) h i (offset_of s h) n buffer 0 r
    → Writing s h i n buffer (r >>= λ written. done (finish_write h i written))
Looping-finished {s} {h} {i} {n} r start has small (wrote t e w) =
    let w' = Wrote-unlocked r w in
    let positive : signed64 (0 + n) ≡ pos n = ground arith in
    writes (without_locks h i t)
      (ap (λ x. x >>= λ written. done (finish_write h i written)) e
        ∙ ap (λ z. done (z, without_locks h i t)) positive)
      w' (content-Wrote start has w')
Looping-finished {h = h} {i = i} r start has small (disk_full t e f) =
    no_block_left (without_locks h i t)
      (ap (λ x. x >>= λ written. done (finish_write h i written)) e) f

-- In parte-1, a write of n bytes, more than 0 and at most the bytes of the buffer, through a
-- handle that is ready, at an offset up to the end of a sound file and within its ten direct
-- blocks, where n is no whole number of blocks unless the offset is, does one of two things.
-- Either it returns n with all locks given back, and the file is the one before with the n bytes
-- written over it from the offset on; the offset moves by n, other files and handles are as
-- before, and bytes of taken blocks of others are unchanged. Or it returns -1, and all blocks are
-- taken.
pub tfs_write-Writing :
    (s : State) (h i n : ℕ) (buffer : List ℕ)
    → Ready s h i
    → Sound s i
    → offset_of s h ≤ size_of s i
    → offset_of s h + n ≤ max_direct_blocks * block_size
    → n ≤ length buffer
    → 0 < n
    → (n % block_size ≡ 0 → offset_of s h % block_size ≡ 0)
    → Writing s h i n buffer (tfs_write (pos h) buffer n s)
unfolding tfs_write
tfs_write-Writing s h i n buffer r v start le has some_bytes whole =
    let o : ℕ = offset_of s h in
    let small : o + n < size_mod = omega arith in
    let after : o / block_size ≤ end_blocks o n = end_blocks-after o n small in
    Writing-eq
      (with_file-Ready (λ t. (minus_one, t)) (λ h' i' t. write_locked h' i' buffer n t) r
        ∙ write_locked-loop h i n buffer (with_locks h i s) some_bytes)
      (Looping-finished r start has (omega arith) (
        write_loop-Looping (end_blocks o n - o / block_size) (o / block_size) (end_blocks o n) h i n
          0 o buffer (with_locks h i s) v refl start refl (omega (arith, after)) some_bytes
          (end_blocks-enough o n small whole) le has))
