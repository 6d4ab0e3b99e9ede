-- ===== src/Net/Ranges/Reads.antt =====
-- parte-2/fs/operations.c: the result of tfs_read counts the bytes that it gives.
use tecnicofs.Base.{
  ℕ, ◌+◌, ◌-◌, ◌%◌, ◌≤◌, ◌<◌, ◌≡◌, ◌∙◌, sym, ap, refl, arith, inl, inr, Bool, true, false, ◌==◌,
  Bool-cases, Option-cases, Option, none, some, List, [], length, ltb, leb, if◌then◌else◌, ℤ, pos,
  minus_one, is_nonneg, signed64,
}
use tecnicofs.Memory.{read_bytes}
use tecnicofs.Memory.Blocks.{length-read_bytes}
use tecnicofs.Fs.State.{State, fs_data_size}
use tecnicofs.Fs.Blocks.{data_block_get}
use tecnicofs.Fs.Inodes.{inode_get}
use tecnicofs.Fs.OpenFiles.{get_open_file_entry}
use tecnicofs.Fs.Operations.{size_mod, read_size, read_entry, read_unsynchronized, set_offset}
use tecnicofs.Fs.Operations.Api.{Locking, after_unlock, tfs_read}

-- A read that does not fail gives as many bytes as it says, and no more than were asked for.
abbrev pub ReadRange : ℕ → Option (ℤ × List ℕ × State) → Type 0
ReadRange len none = Unit {0}
ReadRange len (some (ret, bytes, t)) =
    is_nonneg ret ≡ true
    → (ret ≡ pos (length bytes)) × (length bytes ≤ len) × (length bytes < 0x8000000000000000)

failed-ReadRange : (len : ℕ) (s : State) → ReadRange len (some (minus_one, [], s))
failed-ReadRange len s e = absurd (cc)

chosen-ReadRange :
    (len : ℕ) (b : Bool) (x y : Option (ℤ × List ℕ × State))
    → ReadRange len x
    → ReadRange len y
    → ReadRange len (if b then x else y)
chosen-ReadRange len true x y p q = p
chosen-ReadRange len false x y p q = q

read_size-le : (size offset len : ℕ) → read_size size offset len ≤ len
read_size-le size offset len = elim (Bool-cases (ltb len ((size + size_mod - offset) % size_mod))) [
  | inl e ↦ rw e (omega arith)
  | inr e ↦ rw e (ground arith)
]

signed64-ReadRange :
    (len n a : ℕ) (s t : State)
    → n ≤ len
    → n ≤ fs_data_size
    → ReadRange len (some (signed64 n, read_bytes s.fs_data a n, t))
signed64-ReadRange len n a s t le small e =
    let count = length-read_bytes s.fs_data a n in
    let same : signed64 n ≡ pos n = ground arith in
    (same ∙ ap pos (sym count), omega (arith, count, le), omega (arith, count, small))

read_entry-ReadRange : (h i n len : ℕ) (s : State) → n ≤ len → ReadRange len (read_entry h i n s)
unfolding read_entry
read_entry-ReadRange h i n len s le =
    let offset = (s.open_file_table h).of_offset in
    elim (Bool-cases (n == 0)) [
      | inl z ↦ rw (z, read_entry) (λ e. (refl, omega arith, omega arith))
      | inr z ↦ elim (Option-cases (data_block_get (s.inode_table i).i_data_block)) [
        | inl e ↦ rw (z, e, read_entry) (failed-ReadRange len s)
        | inr (block, e) ↦ elim (Bool-cases (leb (block + offset + n) fs_data_size)) [
          | inl c ↦
              rw (z, e, c, read_entry)
                (signed64-ReadRange len n (block + offset) s
                  (set_offset s h ((offset + n) % size_mod)) le (ground arith))
          | inr c ↦ rw (z, e, c, read_entry) (tt {0})
        ]
      ]
    ]

read_unsynchronized-ReadRange :
    (z : ℤ) (len : ℕ) (s : State) → ReadRange len (read_unsynchronized z len s)
unfolding read_unsynchronized
read_unsynchronized-ReadRange z len s = elim (Option-cases (get_open_file_entry z)) [
  | inl e ↦ rw (e, read_unsynchronized) (failed-ReadRange len s)
  | inr (h, e) ↦ elim (Option-cases (inode_get (s.open_file_table h).of_inumber)) [
    | inl k ↦ rw (e, k, read_unsynchronized) (failed-ReadRange len s)
    | inr (i, k) ↦
        let offset = (s.open_file_table h).of_offset in
        let size = (s.inode_table i).i_size in
        rw (e, k, read_unsynchronized)
          (read_entry-ReadRange h i (read_size size offset len) len s
            (read_size-le size offset len))
  ]
]

unlocked-ReadRange :
    (l : Locking) (len : ℕ) (r : Option (ℤ × List ℕ × State))
    → ReadRange len r
    → ReadRange len
        (elim r [ none ↦ none | some (ret, bytes, s) ↦ some (after_unlock l ret, bytes, s) ])
unlocked-ReadRange l len none h = tt
unlocked-ReadRange l len (some (ret, bytes, s)) h = elim (Bool-cases (l.unlock == 0)) [
  | inl e ↦ rw e h
  | inr e ↦ rw e (λ q. absurd (cc))
]

pub tfs_read-ReadRange :
    (l : Locking) (z : ℤ) (len : ℕ) (s : State) → ReadRange len (tfs_read l z len s)
unfolding tfs_read
tfs_read-ReadRange l z len s =
    chosen-ReadRange len (l.lock == 0) _ _
      (unlocked-ReadRange l len (read_unsynchronized z len s)
        (read_unsynchronized-ReadRange z len s))
      (failed-ReadRange len s)
