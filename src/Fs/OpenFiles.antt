-- ===== src/Fs/OpenFiles.antt =====
-- parte-2/fs/state.c: the open file table and its count.
-- The calls of lock_mutex and unlock_mutex are left out: their failure ends the process.
use tecnicofs.Base.{
  ℕ, not, ◌||◌, Option, none, some, if◌then◌else◌, update, ℤ, pos, minus_one, pos_part, increment,
  decrement,
}
use tecnicofs.Fs.State.{State, free, taken, is_taken, max_open_files}
use tecnicofs.Fs.Blocks.{valid_file_handle, first_free}

unfoldable pub add_to_open_file_table : ℤ → ℕ → State → ℤ × State
add_to_open_file_table inumber offset s =
    elim (first_free max_open_files 0 s.free_open_file_entries) [
      | none ↦ (minus_one, s)
      | some i ↦ (
        pos i,
        record s {
          free_open_file_entries = update s.free_open_file_entries i taken;
          open_file_table =
              update s.open_file_table i (record { of_inumber = inumber; of_offset = offset });
          open_files_count = increment s.open_files_count;
        },
      )
    ]

-- What it signals when the count falls to 0 is in `Shutdown`.
unfoldable pub remove_from_open_file_table : ℤ → State → ℤ × State
remove_from_open_file_table fhandle s =
    let h = pos_part fhandle in
    if not (valid_file_handle fhandle) || not (is_taken (s.free_open_file_entries h))
    then (minus_one, s)
    else (
      pos 0,
      record s {
        open_files_count = decrement s.open_files_count;
        free_open_file_entries = update s.free_open_file_entries h free;
      },
    )

-- The index in `open_file_table`, `none` for NULL. It does not look at `free_open_file_entries`.
unfoldable pub get_open_file_entry : ℤ → Option ℕ
get_open_file_entry fhandle = if valid_file_handle fhandle then some (pos_part fhandle) else none
