-- ===== src/First/OpenFiles.antt =====
-- parte-1/fs/state.c: the open file table and its count.
use tecnicofs.Base.{
  ℕ, zero, suc, ◌+◌, true, false, not, Option, none, some, if◌then◌else◌, update, ℤ, pos, minus_one,
  pos_part, increment, decrement,
}
use tecnicofs.Fs.State.{free, taken, is_taken, max_open_files}
use tecnicofs.Fs.Blocks.{valid_file_handle}
use tecnicofs.First.State.{State, Outcome, stuck, undefined, done}

-- The loop over the `n` entries from `i` on, each under its lock.
unfoldable pub add_open_from : ℕ → ℕ → ℤ → ℕ → State → Outcome (ℤ × State)
add_open_from zero i inumber offset s = done (minus_one, s)
add_open_from (suc n) i inumber offset s = elim (s.open_file_table_locks i) [
  | true ↦ stuck
  | false ↦ elim (s.free_open_file_entries i) [
    | taken ↦ add_open_from n (i + 1) inumber offset s
    | free ↦ done (
      pos i,
      record s {
        free_open_file_entries = update s.free_open_file_entries i taken;
        open_file_table =
            update s.open_file_table i (record { of_inumber = inumber; of_offset = offset });
        open_files_count = increment s.open_files_count;
      },
    )
  ]
]

unfoldable pub add_to_open_file_table : ℤ → ℕ → State → Outcome (ℤ × State)
add_to_open_file_table inumber offset s = add_open_from max_open_files 0 inumber offset s

-- The lock of the entry is taken before the number is tested.
unfoldable pub remove_from_open_file_table : ℤ → State → Outcome (ℤ × State)
remove_from_open_file_table fhandle s =
    let h = pos_part fhandle in
    if not (valid_file_handle fhandle)
    then undefined
    else if s.open_file_table_locks h
    then stuck
    else if not (is_taken (s.free_open_file_entries h))
    then done (minus_one, s)
    else done (
      pos 0,
      record s {
        open_files_count = decrement s.open_files_count;
        free_open_file_entries = update s.free_open_file_entries h free;
      },
    )

-- The index in `open_file_table`, `none` for NULL.
unfoldable pub get_open_file_entry : ℤ → Option ℕ
get_open_file_entry fhandle = if valid_file_handle fhandle then some (pos_part fhandle) else none
