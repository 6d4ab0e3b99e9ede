-- ===== src/Net/Ranges/Sizes.antt =====
-- parte-2/fs/operations.c: the result of tfs_write is a value of a `ssize_t`.
use tecnicofs.Base.{
  ℕ, ◌+◌, ◌%◌, ◌<◌, arith, inl, inr, Bool, true, false, ◌&&◌, ◌==◌, Bool-cases, Option-cases,
  Option, none, some, List, length, ltb, leb, if◌then◌else◌, ℤ, minus_one, signed64,
}
use tecnicofs.Fs.State.{State, block_size, fs_data_size}
use tecnicofs.Fs.Blocks.{data_block_get}
use tecnicofs.Fs.Inodes.{inode_get}
use tecnicofs.Fs.OpenFiles.{get_open_file_entry}
use tecnicofs.Fs.Operations.{size_mod, write_size, write_entry, write_unsynchronized, ensure_block}
use tecnicofs.Fs.Operations.Api.{Locking, after_unlock, tfs_write}
use tecnicofs.Net.Remote.{IsSize}

signed64-IsSize : (n : ℕ) → n < 0x10000000000000000 → IsSize (signed64 n)
signed64-IsSize n lt = elim (Bool-cases (ltb n 0x8000000000000000)) [
  | inl e ↦ rw e (ground arith)
  | inr e ↦ rw e (ground arith)
]

abbrev pub SizeResult : Option (ℤ × State) → Type 0
SizeResult none = Unit {0}
SizeResult (some (ret, t)) = IsSize ret

chosen-SizeResult :
    (b : Bool) (x y : Option (ℤ × State))
    → SizeResult x
    → SizeResult y
    → SizeResult (if b then x else y)
chosen-SizeResult true x y p q = p
chosen-SizeResult false x y p q = q

minus_one-IsSize : IsSize minus_one
minus_one-IsSize = omega arith

write_entry-SizeResult :
    (h i n : ℕ) (buffer : List ℕ) (s : State)
    → n < 0x10000000000000000
    → SizeResult (write_entry h i buffer n s)
unfolding write_entry
write_entry-SizeResult h i n buffer s lt =
    let s' = ensure_block i s in
    let offset = (s.open_file_table h).of_offset in
    elim (Bool-cases (n == 0)) [
      | inl z ↦ rw (z, write_entry) (omega arith)
      | inr z ↦ elim (Option-cases (data_block_get (s'.inode_table i).i_data_block)) [
        | inl e ↦ rw (z, e, write_entry) minus_one-IsSize
        | inr (block, e) ↦
            elim (Bool-cases (leb (block + offset + n) fs_data_size && leb n (length buffer))) [
              | inl c ↦ rw (z, e, c, write_entry) (signed64-IsSize n lt)
              | inr c ↦ rw (z, e, c, write_entry) (tt {0})
            ]
      ]
    ]

write_size-lt : (n offset : ℕ) → n < 0x10000000000000000 → write_size n offset < 0x10000000000000000
write_size-lt n offset lt = elim (Bool-cases (ltb block_size ((n + offset) % size_mod))) [
  | inl e ↦ rw e (omega arith)
  | inr e ↦ rw e lt
]

write_unsynchronized-SizeResult :
    (z : ℤ) (buffer : List ℕ) (n : ℕ) (s : State)
    → n < 0x10000000000000000
    → SizeResult (write_unsynchronized z buffer n s)
unfolding write_unsynchronized
write_unsynchronized-SizeResult z buffer n s lt = elim (Option-cases (get_open_file_entry z)) [
  | inl e ↦ rw (e, write_unsynchronized) minus_one-IsSize
  | inr (h, e) ↦ elim (Option-cases (inode_get (s.open_file_table h).of_inumber)) [
    | inl k ↦ rw (e, k, write_unsynchronized) minus_one-IsSize
    | inr (i, k) ↦
        rw (e, k, write_unsynchronized)
          (write_entry-SizeResult h i (write_size n (s.open_file_table h).of_offset) buffer s
            (write_size-lt n (s.open_file_table h).of_offset lt))
  ]
]

unlocked-SizeResult :
    (l : Locking) (r : Option (ℤ × State))
    → SizeResult r
    → SizeResult (elim r [ none ↦ none | some (ret, s) ↦ some (after_unlock l ret, s) ])
unlocked-SizeResult l none h = tt
unlocked-SizeResult l (some (ret, s)) h = elim (Bool-cases (l.unlock == 0)) [
  | inl e ↦ rw e h
  | inr e ↦ rw e minus_one-IsSize
]

pub tfs_write-SizeResult :
    (l : Locking) (z : ℤ) (buffer : List ℕ) (n : ℕ) (s : State)
    → n < 0x10000000000000000
    → SizeResult (tfs_write l z buffer n s)
unfolding tfs_write
tfs_write-SizeResult l z buffer n s lt =
    chosen-SizeResult (l.lock == 0) _ _
      (unlocked-SizeResult l (write_unsynchronized z buffer n s)
        (write_unsynchronized-SizeResult z buffer n s lt))
      minus_one-IsSize
