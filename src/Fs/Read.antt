-- ===== src/Fs/Read.antt =====
-- _tfs_read_unsynchronized of parte-2/fs/operations.c.
use Prim.Native.Nat.{min}
use tecnicofs.Base.{
  ℕ, zero, suc, ◌+◌, ◌-◌, ◌≤◌, ◌<◌, ◌≡◌, ◌≢◌, refl, arith, ap, ◌∙◌, sym, List, take, drop, some,
  true, false, Option, ℤ, pos, leb, signed64, ◌==◌, ◌%◌,
}
use tecnicofs.Memory.{read_bytes}
use tecnicofs.Memory.Blocks.{read_bytes-cong, read_bytes-take, read_bytes-drop}
use tecnicofs.Fs.State.{State, block_size, max_open_files, data_blocks, fs_data_size}
use tecnicofs.Fs.Blocks.{valid_inumber, valid_block_number}
use tecnicofs.Fs.Blocks.Search.{valid_block_number-lt}
use tecnicofs.Fs.Operations.{set_offset, size_mod, read_size, read_entry, read_unsynchronized}
use tecnicofs.Fs.Pointers.{get_open_file_entry-lt, inode_get-valid, data_block_get-valid}
use tecnicofs.Fs.Invariant.{size_of, block_of, block_at, IsValid, offset_of, inumber_of}
use tecnicofs.Fs.Invariant.Steps.{Refers, set_offset-IsValid}
use tecnicofs.Fs.Content.{content}

-- The bytes from the offset on, as many as are asked for and are there.
abbrev pub next_bytes : State → ℕ → ℕ → ℕ → List ℕ
next_bytes s h i len = take len (drop (offset_of s h) (content s i))

pub read_unsynchronized-entry :
    (s : State) (h i len : ℕ)
    → h < max_open_files
    → inumber_of s h ≡ pos i
    → valid_inumber (pos i) ≡ true
    → read_unsynchronized (pos h) len s
      ≡ read_entry h i (read_size (size_of s i) (offset_of s h) len) s
unfolding read_unsynchronized
read_unsynchronized-entry s h i len lt e ok =
    rw (get_open_file_entry-lt h lt, e, inode_get-valid (pos i) ok, read_unsynchronized)

pub read_entry-within :
    (s : State) (h i n : ℕ)
    → valid_block_number (s.inode_table i).i_data_block ≡ true
    → offset_of s h + n ≤ block_size
    → (n == 0) ≡ false
    → read_entry h i n s
      ≡ some (
        pos n,
        read_bytes s.fs_data (block_at s i + offset_of s h) n,
        set_offset s h ((offset_of s h + n) % size_mod),
      )
unfolding read_entry
read_entry-within s h i n ok fit z =
    let lt : block_of s i < data_blocks = valid_block_number-lt (s.inode_table i).i_data_block ok in
    let inside : leb (block_at s i + offset_of s h + n) fs_data_size ≡ true = ground arith in
    let positive : signed64 n ≡ pos n = ground arith in
    rw (z, data_block_get-valid (s.inode_table i).i_data_block ok, inside, positive)

next_bytes-read :
    (s : State) (h i len n : ℕ)
    → n ≡ min len (size_of s i - offset_of s h)
    → read_bytes s.fs_data (block_at s i + offset_of s h) n ≡ next_bytes s h i len
next_bytes-read s h i len n e =
    read_bytes-cong s.fs_data refl e
    ∙ sym
        (read_bytes-take s.fs_data (block_at s i + offset_of s h) len (size_of s i - offset_of s h))
    ∙ ap (take len) (sym (read_bytes-drop s.fs_data (block_at s i) (offset_of s h) (size_of s i)))

-- What a read that goes well returns, with the state after it.
pub record ReadResult (s : State) (h i len : ℕ) (r : Option (ℤ × List ℕ × State)) : Type 0 where
  pub after : State
  pub returns : r ≡ some (pos (min len (size_of s i - offset_of s h)), next_bytes s h i len, after)
  pub valid : IsValid after
  pub same_files : (j : ℕ) → content after j ≡ content s j
  pub offset : offset_of after h ≡ offset_of s h + min len (size_of s i - offset_of s h)
  pub same_handles : (g : ℕ) → g ≢ h → after.open_file_table g ≡ s.open_file_table g

read_entry-refines :
    (s : State) (h i len n : ℕ)
    → IsValid s
    → Refers s h i
    → offset_of s h ≤ size_of s i
    → n ≡ min len (size_of s i - offset_of s h)
    → ReadResult s h i len (read_entry h i n s)
unfolding read_entry read_bytes
read_entry-refines s h i len zero v r le e = record {
  after = s;
  returns = λ j. some (pos (e j), next_bytes-read s h i len zero e j, s);
  valid = v;
  same_files = λ j. refl;
  offset = omega arith;
  same_handles = λ g ne. refl;
}
read_entry-refines s h i len (suc k) v r le e =
    let n : ℕ = suc k in
    let fit : size_of s i ≤ block_size = v.fits i r.4 in
    let off' : ℕ = (offset_of s h + n) % size_mod in
    let off-eq : off' ≡ offset_of s h + n = omega arith in
    record {
      after = set_offset s h off';
      returns =
          read_entry-within s h i n (v.owns i r.4 (omega arith)).0 (omega arith) (ground arith)
          ∙ λ j. some (pos (e j), next_bytes-read s h i len n e j, set_offset s h off');
      valid = set_offset-IsValid h i off' r (omega arith) v;
      same_files = λ j. refl;
      offset = ground arith;
      same_handles = λ g ne. ground arith;
    }

-- In a valid state, a read through an open handle is defined behaviour. It returns the number of
-- bytes that it puts into the buffer: those of the file from the handle's offset on, at most
-- `len`. It moves the offset behind them, changes no file and no other handle, and leaves a valid
-- state.
pub read_unsynchronized-refines :
    (s : State) (h i len : ℕ)
    → IsValid s
    → Refers s h i
    → ReadResult s h i len (read_unsynchronized (pos h) len s)
read_unsynchronized-refines s h i len v r =
    let o = v.opened h r.0 r.1 in
    let ok : valid_inumber (pos i) ≡ true = rw r.2 at (o.0.0) in
    let le : offset_of s h ≤ size_of s i = ground arith in
    let fit : size_of s i ≤ block_size = v.fits i r.4 in
    rw (read_unsynchronized-entry s h i len r.0 r.2 ok)
      (read_entry-refines s h i len _ v r le (ground arith))
