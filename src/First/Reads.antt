-- ===== src/First/Reads.antt =====
-- What tfs_read of parte-1/fs/operations.c does.
use tecnicofs.Base.{
  ℕ, zero, suc, ◌+◌, ◌-◌, ◌*◌, ◌/◌, ◌%◌, ◌≤◌, ◌<◌, ◌≡◌, ◌∙◌, ap, ap₂, sym, refl, arith, false, ◌==◌,
  some, [], pos, minus_one, update, signed64,
}
use Prim.Native.Nat.{min}
use tecnicofs.Memory.{read_bytes}
use tecnicofs.Fs.State.{block_size, OpenFileEntry}
use tecnicofs.Fs.Operations.{read_size}
use tecnicofs.First.State.{State, Outcome, done}
use tecnicofs.First.Operations.Transfer.{end_blocks}
use tecnicofs.First.Ends.{end_blocks-enough, end_blocks-after}
use tecnicofs.First.Operations.Read.{
  Loaded, read_block, read_loop, set_offset, read_locked, read_sized, tfs_read,
}
use tecnicofs.First.Locked.{
  Ready, with_locks, without_locks, without_locks-with_locks, with_file-Ready, update_same,
}
use tecnicofs.First.Content.{size_of, offset_of, file_bytes, Stored}
use tecnicofs.First.Text.{text_bytes, HasBlocks, HasBlocks-Stored, read_bytes-text}
use tecnicofs.First.ReadLoop.{read_loop-reads}

read_locked-reads :
    (h i n o : ℕ) (s : State)
    → offset_of s h ≡ o
    → o + n ≤ size_of s i
    → size_of s i < 0x8000000000000000
    → Stored s i
    → (n % block_size ≡ 0 → o % block_size ≡ 0)
    → 0 < n
    → read_locked h i n s
      ≡ done (pos n, read_bytes (file_bytes s i) o n, without_locks h i (set_offset h (o + n) s))
unfolding read_locked
read_locked-reads h i n o s eo le small st whole some_bytes =
    let enough : o + n ≤ end_blocks o n * block_size = end_blocks-enough o n (omega arith) whole in
    let nonzero : (n == 0) ≡ false = ground arith in
    let positive : signed64 n ≡ pos n = ground arith in
    let run : ℕ → Outcome Loaded = λ x.
      read_loop (end_blocks x n - x / block_size) (x / block_size) (end_blocks x n) h i n 0 s in
    let loop : run (offset_of s h)
        ≡ done (some (n, read_bytes (file_bytes s i) o n), set_offset h (o + n) s) =
      ap run eo
      ∙ read_loop-reads (end_blocks o n - o / block_size) (o / block_size) (end_blocks o n) h i n 0
          o s eo st refl (omega (arith, end_blocks-after o n (omega arith))) some_bytes enough le
          (omega arith)
      ∙ ap (λ c. done (some (c, read_bytes (file_bytes s i) o n), set_offset h (o + n) s))
          {x = 0 + n} {y = n} (omega arith) in
    rw (nonzero, loop, positive, read_locked) refl

entry_same : (f : OpenFileEntry) (o : ℕ) → f.of_offset ≡ o → record f { of_offset = o } ≡ f
entry_same f o e = ap (λ x. record f { of_offset = x }) (sym e)

set_offset_same : (h o : ℕ) (s : State) → offset_of s h ≡ o → set_offset h o s ≡ s
set_offset_same h o s e =
    ap (λ f. record s { open_file_table = update s.open_file_table h f })
      (entry_same (s.open_file_table h) o e)
    ∙ ap (λ t. record s { open_file_table = t }) (update_same s.open_file_table h)

Stored-with_locks : (h i : ℕ) (s : State) → Stored s i → Stored (with_locks h i s) i
unfolding read_block
Stored-with_locks h i s st = st

file_bytes-with_locks : (h i : ℕ) (s : State) → file_bytes (with_locks h i s) i ≡ file_bytes s i
unfolding read_block
file_bytes-with_locks h i s = refl

-- With both locks held, also if there is nothing to read.
read_locked-moves :
    {s : State} {h i : ℕ} (n o : ℕ)
    → Ready s h i
    → Stored s i
    → offset_of s h ≡ o
    → o + n ≤ size_of s i
    → size_of s i < 0x8000000000000000
    → (0 < n → n % block_size ≡ 0 → o % block_size ≡ 0)
    → read_locked h i n (with_locks h i s)
      ≡ done (pos n, read_bytes (file_bytes s i) o n, set_offset h (o + n) s)
unfolding read_locked read_bytes
read_locked-moves {s} {h} {i} zero o r st eo le small whole =
    ap (λ t. done (pos 0, [], t))
      (without_locks-with_locks h i s s r.file_free r.node_free refl refl
        ∙ sym (set_offset_same h (o + 0) s (omega arith)))
read_locked-moves {s} {h} {i} (suc p) o r st eo le small whole =
    read_locked-reads h i (suc p) o (with_locks h i s) eo le small (Stored-with_locks h i s st)
      (whole (omega arith)) (omega arith)
    ∙ ap₂ (λ f t. done (pos (suc p), read_bytes f o (suc p), t)) (file_bytes-with_locks h i s)
        (without_locks-with_locks h i s (set_offset h (o + suc p) s) r.file_free r.node_free refl
          refl)

-- The same for the whole call, in terms of the blocks that the code finds.
pub tfs_read-Stored :
    (s : State) (h i len n o : ℕ)
    → Ready s h i
    → Stored s i
    → offset_of s h ≡ o
    → o ≤ size_of s i
    → size_of s i < 0x8000000000000000
    → n ≡ min len (size_of s i - o)
    → (0 < n → n % block_size ≡ 0 → o % block_size ≡ 0)
    → tfs_read (pos h) len s ≡ done (pos n, read_bytes (file_bytes s i) o n, set_offset h (o + n) s)
unfolding tfs_read
tfs_read-Stored s h i len n o r st eo le small en whole =
    let size : read_size (size_of s i) (offset_of s h) len ≡ n = ground arith in
    with_file-Ready (λ t. (minus_one, [], t)) (read_sized len) r
    ∙ ap (λ m. read_locked h i m (with_locks h i s)) size
    ∙ read_locked-moves n o r st eo (omega arith) small whole

-- In parte-1, a read through a handle that is ready, at an offset up to the end of a file of less
-- than 2^63 bytes, returns the number n of the bytes left in the file, or the given length if that
-- is less, and gives these n bytes; it moves the offset by n and changes nothing else, and all
-- locks are given back. The byte x of the file is described without the code: it is the byte x %
-- 1024 of the block whose number is the direct number x / 1024 of the node, if that is below 10,
-- and otherwise the int number x / 1024 - 10 in the block of references. All the blocks of the
-- file, and that block if it is needed, are there, and the number of bytes read is no whole number
-- of blocks unless the offset is.
pub tfs_read-reads :
    (s : State) (h i len n o : ℕ)
    → Ready s h i
    → HasBlocks s i
    → offset_of s h ≡ o
    → o ≤ size_of s i
    → size_of s i < 0x8000000000000000
    → n ≡ min len (size_of s i - o)
    → (0 < n → n % block_size ≡ 0 → o % block_size ≡ 0)
    → tfs_read (pos h) len s ≡ done (pos n, read_bytes (text_bytes s i) o n, set_offset h (o + n) s)
tfs_read-reads s h i len n o r has eo le small en whole =
    tfs_read-Stored s h i len n o r (HasBlocks-Stored s i has) eo le small en whole
    ∙ ap (λ xs. done (pos n, xs, set_offset h (o + n) s))
        (read_bytes-text s i o n has (omega arith))
