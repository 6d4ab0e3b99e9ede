-- ===== src/Fs/Write.antt =====
-- _tfs_write_unsynchronized of parte-2/fs/operations.c: memory safety, and what it does to the
-- contents of files.
pub mod Block
pub mod Put
use Prim.Native.Nat.{min, max}
use tecnicofs.Base.{
  zero, suc, get_or, ltb, if◌then◌else◌, ◌%◌, ℕ, ◌+◌, ◌-◌, ◌*◌, ◌≤◌, ◌<◌, ◌≡◌, ◌≢◌, refl, ◌⊎◌, inl,
  inr, arith, ◌∙◌, List, [], lt→ltb, sym, leb, ◌&&◌, signed64, Option, overwrite-nil, length,
  length-take, take, overwrite, some, true, false, ℤ, pos, minus_one, update, Bool-cases, ◌==◌, ap,
}
use tecnicofs.Memory.{Memory, write_bytes, memcpy}
use tecnicofs.Memory.Blocks.{read_bytes-cong, read_bytes-memcpy}
use tecnicofs.Fs.State.{State, max_open_files, fs_data_size, free, taken, block_size, data_blocks}
use tecnicofs.Fs.Blocks.{valid_block_number, valid_inumber, data_block_get, data_block_alloc}
use tecnicofs.Fs.Blocks.Search.{valid_block_number-lt, Alloc, full, found, data_block_alloc-Alloc}
use tecnicofs.Fs.OpenFiles.{get_open_file_entry}
use tecnicofs.Fs.Inodes.{inode_get}
use tecnicofs.Fs.Operations.{
  set_offset, write_size, size_mod, ensure_block, write_entry, write_unsynchronized, advance,
}
use tecnicofs.Fs.Pointers.{get_open_file_entry-lt, inode_get-valid}
use tecnicofs.Fs.Invariant.{
  InUse, size_of, block_of, block_at, IsValid, OwnsBlock, offset_of, inumber_of, block-taken,
}
use tecnicofs.Fs.Invariant.Steps.{
  Refers, with_block, with_size, with_data, write_bytes-IsValid, grow-IsValid, block-ne-root,
  set_offset-IsValid, take_block-IsValid, set_block-IsValid,
}
use tecnicofs.Fs.Content.{content, OthersKept, content-cong, block-Agree}
use tecnicofs.Fs.Write.Block.{Ensured, had, got, none_left, Ready, ensure_block-Ensured, got-Ready}
use tecnicofs.Fs.Write.Put.{Written, put, put-Written, nothing-Written, got-Written}

-- What a call may return: the number of bytes, or -1 if the file is empty and no block is left.
pub data WriteResult (s : State) (h i w : ℕ) (buffer : List ℕ) (r : Option (ℤ × State))
    : Type 0 where
  wrote :
      (t : State)
      → r ≡ some (pos w, t)
      → Written s h i (take w buffer) t
      → WriteResult s h i w buffer r
  disk_full :
      (t : State)
      → r ≡ some (minus_one, t)
      → 0 < w
      → size_of s i ≡ 0
      → ((b : ℕ) → b < data_blocks → s.free_blocks b ≡ taken)
      → IsValid t
      → ((j : ℕ) → InUse s j → content t j ≡ content s j)
      → WriteResult s h i w buffer r

pub write_entry-ready :
    (s : State) (h i n : ℕ) (buffer : List ℕ)
    → (n == 0) ≡ false
    → let t = ensure_block i s in
      valid_block_number (t.inode_table i).i_data_block ≡ true
      → offset_of t h ≡ offset_of s h
      → n ≤ length buffer
      → offset_of s h + n ≤ block_size
      → write_entry h i buffer n s ≡ some (pos n, put t h i n buffer)
unfolding write_entry data_block_get
write_entry-ready s h i n buffer z ok same hn hb =
    let t : State = ensure_block i s in
    let lt : block_of t i < data_blocks = valid_block_number-lt (t.inode_table i).i_data_block ok in
    let inside : (leb (block_at t i + offset_of s h + n) fs_data_size && leb n (length buffer))
        ≡ true =
      ground arith in
    let positive : signed64 n ≡ pos n = ground arith in rw (z, ok, same, inside, positive)

write_entry-full :
    (s : State) (h i n : ℕ) (buffer : List ℕ)
    → (n == 0) ≡ false
    → ((ensure_block i s).inode_table i).i_data_block ≡ minus_one
    → write_entry h i buffer n s ≡ some (minus_one, ensure_block i s)
unfolding write_entry data_block_get
write_entry-full s h i n buffer z e = rw (z, e)

-- A call through an open handle comes down to its entry.
pub write_unsynchronized-entry :
    (s : State) (h i to_write : ℕ) (buffer : List ℕ)
    → h < max_open_files
    → inumber_of s h ≡ pos i
    → valid_inumber (pos i) ≡ true
    → write_unsynchronized (pos h) buffer to_write s
      ≡ write_entry h i buffer (write_size to_write (offset_of s h)) s
unfolding write_unsynchronized
write_unsynchronized-entry s h i to_write buffer lt e ok =
    rw (get_open_file_entry-lt h lt, e, inode_get-valid (pos i) ok, write_unsynchronized)

write_entry-by :
    {s : State} (h i n : ℕ) (buffer : List ℕ) (t : State)
    → ensure_block i s ≡ t
    → Ensured s i t
    → IsValid s
    → Refers s h i
    → offset_of s h ≤ size_of s i
    → n ≤ length buffer
    → offset_of s h + n ≤ block_size
    → WriteResult s h i n buffer (write_entry h i buffer n s)
unfolding write_entry
write_entry-by {s} h i zero buffer t e _ v r le hn hb = wrote s refl (nothing-Written h i v)
write_entry-by {s} h i (suc k) buffer t e (had d q) v r le hn hb =
    let p : ensure_block i s ≡ s = e ∙ q in
    let n : ℕ = suc k in
    let ok = (v.owns i r.4 d).0 in
    wrote (put (ensure_block i s) h i n buffer)
      (write_entry-ready s h i n buffer (ground arith) (rw p ok) (rw p) hn hb)
      (rw p (put-Written h i n buffer v r (v.owns i r.4 d) le hn hb))
write_entry-by {s} h i (suc k) buffer t e (got b z lt is_free q) v r le hn hb =
    let p = e ∙ q in
    let n : ℕ = suc k in
    let y = got-Ready i b r.3 r.4 z lt is_free v in
    wrote (put (ensure_block i s) h i n buffer)
      (write_entry-ready s h i n buffer (ground arith) (rw p (y.owns.0)) (rw p) hn hb)
      (rw p (got-Written h i b n buffer r v hn le hb y))
write_entry-by {s} h i (suc k) buffer t e (none_left z all q) v r le hn hb =
    let p = e ∙ q in
    disk_full (with_block s i minus_one)
      (write_entry-full s h i (suc k) buffer (ground arith) (rw p (ground arith))
        ∙ ap (λ x. some (minus_one, x)) p)
      (omega arith) z all (set_block-IsValid i minus_one r.3 z v)
      (λ j x.
        content-cong s (with_block s i minus_one) j (ground arith) (λ d. ground arith)
          (λ _ _ _. refl))

pub write_unsynchronized-refines :
    (s : State) (h i to_write : ℕ) (buffer : List ℕ)
    → IsValid s
    → Refers s h i
    → to_write ≤ length buffer
    → to_write < 0x8000000000000000
    → WriteResult s h i
        (min to_write (block_size - offset_of s h))
        buffer
        (write_unsynchronized (pos h) buffer to_write s)
write_unsynchronized-refines s h i to_write buffer v r hn small =
    let o = v.opened h r.0 r.1 in
    let ok : valid_inumber (pos i) ≡ true = rw r.2 at (o.0.0) in
    let le : offset_of s h ≤ size_of s i = ground arith in
    let fit : size_of s i ≤ block_size = v.fits i r.4 in
    let size-eq : write_size to_write (offset_of s h) ≡ min to_write (block_size - offset_of s h) =
      ground arith in
    rw (write_unsynchronized-entry s h i to_write buffer r.0 r.2 ok, size-eq)
      (write_entry-by h i _ buffer (ensure_block i s) refl (ensure_block-Ensured s i) v r le
        (omega arith) (omega arith))
