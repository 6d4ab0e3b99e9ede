-- ===== src/Fs/Write/Put.antt =====
-- The memcpy of a write of parte-2/fs/operations.c, and the updates behind it.
use Prim.Native.Nat.{max}
use tecnicofs.Base.{
  get_or, ltb, if◌then◌else◌, ◌%◌, ℕ, ◌+◌, ◌≤◌, ◌≡◌, ◌≢◌, refl, arith, ◌∙◌, List, [], sym,
  overwrite-nil, length, length-take, take, overwrite, pos, update, ap,
}
use tecnicofs.Memory.{Memory, write_bytes, memcpy}
use tecnicofs.Memory.Blocks.{read_bytes-cong, read_bytes-memcpy}
use tecnicofs.Fs.State.{State, taken, block_size}
use tecnicofs.Fs.Operations.{set_offset, size_mod, advance}
use tecnicofs.Fs.Invariant.{size_of, block_of, block_at, IsValid, OwnsBlock, offset_of, inumber_of}
use tecnicofs.Fs.Invariant.Steps.{
  Refers, with_block, with_size, with_data, write_bytes-IsValid, grow-IsValid, block-ne-root,
  set_offset-IsValid,
}
use tecnicofs.Fs.Content.{content, OthersKept, content-cong, block-Agree}
use tecnicofs.Fs.Write.Block.{Ready}

-- What a write of the `w` bytes does through the entry `h` of the file `i`.
pub record Written (s : State) (h i : ℕ) (bytes : List ℕ) (t : State) : Type 0 where
  pub valid : IsValid t
  pub text : content t i ≡ overwrite (content s i) (offset_of s h) bytes
  pub offset : offset_of t h ≡ offset_of s h + length bytes
  pub others : OthersKept s t i
  pub same_number : inumber_of t h ≡ inumber_of s h
  pub same_handles : (g : ℕ) → g ≢ h → t.open_file_table g ≡ s.open_file_table g
  pub same_entries : t.free_open_file_entries ≡ s.free_open_file_entries
  pub same_inodes : t.freeinode_ts ≡ s.freeinode_ts
  pub same_flag : t.open_flag ≡ s.open_flag

pub put-Written :
    {t : State} (h i n : ℕ) (buffer : List ℕ)
    → IsValid t
    → Refers t h i
    → OwnsBlock t i
    → offset_of t h ≤ size_of t i
    → n ≤ length buffer
    → offset_of t h + n ≤ block_size
    → Written t h i
        (take n buffer)
        (advance h i n (with_data t (memcpy t.fs_data (block_at t i + offset_of t h) buffer n)))
unfolding advance memcpy
put-Written {t} h i n buffer v r o le hn hb =
    let f : ℕ → ℕ = λ k. get_or buffer k 0 in
    let off : ℕ = offset_of t h in
    let a : ℕ = block_at t i + off in
    let m : Memory = write_bytes t.fs_data a n f in
    let off' : ℕ = (off + n) % size_mod in
    let size' : ℕ = if ltb (size_of t i) off' then off' else size_of t i in
    let g : State = with_size (with_data t m) i size' in
    let u : State = set_offset g h off' in
    let ne : block_of t 0 ≢ block_of t i = block-ne-root i r.3 o.2 v in
    let off-eq : off' ≡ off + n = omega arith in
    let size-eq : size' ≡ max (size_of t i) (off + n) = ground arith in
    let fit : size_of t i ≤ block_size = v.fits i r.4 in
    let g-IsValid : IsValid g =
      grow-IsValid {s = with_data t m} i size' r.3 r.4 o (omega arith) (omega arith)
        (write_bytes-IsValid a n f (omega arith) v) in
    let size-u : size_of u i ≡ max (size_of t i) (off + n) = ground arith in
    let block-u : block_at u i ≡ block_at t i = ground arith in
    record {
      valid = set_offset-IsValid {s = g} h i off' r (omega arith) g-IsValid;
      text =
          read_bytes-cong m {b = block_at t i} block-u size-u
          ∙ read_bytes-memcpy t.fs_data (block_at t i) (size_of t i) off n
              (max (size_of t i) (off + n)) buffer le hn refl;
      offset = ground (arith, length-take n buffer);
      same_number = ground arith;
      same_handles = λ x nx. ground arith;
      same_entries = refl;
      same_inodes = refl;
      same_flag = refl;
      others = λ j w nj.
          content-cong t u j (ground arith) (λ _. ground arith)
            (block-Agree {s = t} i j a n f v o.2 w nj (v.fits j w) (omega arith) (omega arith));
    }

-- A write of no bytes.
pub nothing-Written : {s : State} (h i : ℕ) → IsValid s → Written s h i [] s
nothing-Written {s} h i v = record {
  valid = v;
  text = sym (overwrite-nil (content s i) (offset_of s h));
  offset = omega arith;
  others = λ j w nj. refl;
  same_number = refl;
  same_handles = λ g ng. refl;
  same_entries = refl;
  same_inodes = refl;
  same_flag = refl;
}

-- The state after the memcpy of `n` bytes and the updates behind it.
abbrev pub put : State → ℕ → ℕ → ℕ → List ℕ → State
put t h i n buffer =
    advance h i n (with_data t (memcpy t.fs_data (block_at t i + offset_of t h) buffer n))

pub got-Written :
    {s : State} (h i b n : ℕ) (buffer : List ℕ)
    → Refers s h i
    → IsValid s
    → n ≤ length buffer
    → offset_of s h ≤ size_of s i
    → offset_of s h + n ≤ block_size
    → let t = with_block (record s { free_blocks = update s.free_blocks b taken }) i (pos b) in
      Ready s i t → Written s h i (take n buffer) (put t h i n buffer)
got-Written {s} h i b n buffer r v hn le hb y =
    let t : State =
      with_block (record s { free_blocks = update s.free_blocks b taken }) i (pos b) in
    let w : Written t h i (take n buffer) (put t h i n buffer) =
      put-Written {t = t} h i n buffer y.valid r y.owns (omega (arith, y.size)) hn hb in
    record {
      valid = w.valid;
      text = w.text ∙ ap (λ c. overwrite c (offset_of s h) (take n buffer)) (y.kept i r.4);
      offset = w.offset;
      others = λ j x nj. w.others j x nj ∙ y.kept j x;
      same_number = w.same_number;
      same_handles = w.same_handles;
      same_entries = w.same_entries;
      same_inodes = w.same_inodes;
      same_flag = w.same_flag;
    }
