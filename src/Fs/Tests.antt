-- ===== src/Fs/Tests.antt =====
-- Runs of the file system at concrete inputs, and its theorems applied there.
use tecnicofs.Base.{
  ◌⊎◌, if◌then◌else◌, ◌==◌, overwrite, ◌∙◌, ℕ, zero, suc, ◌+◌, ◌≡◌, ◌≢◌, refl, arith, Option, none,
  some, List, [], ◌∷◌, ℤ, pos, negsuc, minus_one, take, false, count_below,
}
use tecnicofs.Memory.{
  write_bytes, read_bytes, memcpy, strncpy, strncmp_eq, byte_of, load_int, store_int,
}
use tecnicofs.Memory.Strings.{IsString}
use tecnicofs.Fs.State.{State, free, taken, t_file}
use tecnicofs.Fs.Blocks.{first_free, data_block_alloc, data_block_get, data_block_free}
use tecnicofs.Fs.Inodes.{
  boot, state_init, inode_create, inode_delete, inode_get, init_inode, clear_entries,
}
use tecnicofs.Fs.Dir.{
  find_in_dir, find_from, entry_matches, add_dir_entry, add_entry_from, fill_entry,
}
use tecnicofs.Fs.Dir.Lookup.{IsEmpty}
use tecnicofs.Fs.OpenFiles.{
  add_to_open_file_table, remove_from_open_file_table, get_open_file_entry,
}
use tecnicofs.Fs.Operations.{
  tfs_init, open_unsynchronized, lookup_unsynchronized, open_existing, open_new, truncate,
  write_unsynchronized, write_entry, ensure_block, advance, read_unsynchronized, read_entry,
  set_offset,
}
use tecnicofs.Fs.Operations.Api.{
  Locking, open_passed, tfs_open, tfs_write, tfs_read, tfs_destroy_after_all_closed,
}
use tecnicofs.Fs.Invariant.{IsFile, IsValid, inumber_of, offset_of, block_at}
use tecnicofs.Fs.Invariant.Steps.{Refers}
use tecnicofs.Fs.Content.{content}
use tecnicofs.Fs.Create.{created, created-IsValid, Creating, inode_create-Creating}
use tecnicofs.Fs.Root.{
  entered, Entering, entered-IsValid, add_dir_entry-Entering, find_in_dir-entered,
  find_in_dir-entered_other,
}
use tecnicofs.Fs.Existing.{AtStart, Prepared, open_existing-Prepared}
use tecnicofs.Fs.Open.{path_of, find_in_dir-created}
use tecnicofs.Fs.Handles.{
  opened_at, opened_at-IsValid, open_count, Closing, remove_from_open_file_table-Closing, Adding,
  add_to_open_file_table-Adding,
}
use tecnicofs.Fs.Init.{initial, initial-IsValid, initial-empty}
use tecnicofs.Fs.Read.{ReadResult, read_unsynchronized-refines}
use tecnicofs.Fs.RoundTrip.{read-after-write}
use tecnicofs.Fs.Calls.{
  closes_handle, writes, perform, perform-Defined, start, later, Reach-IsValid, Reach-safe,
  after-IsValid,
}
use tecnicofs.Fs.Limits.{stale_read, unopened_write, long_name_not_found}
use tecnicofs.Fs.Waiting as Waits
use tecnicofs.Fs.Waiting.{
  Waiting, testing, sleeping, returned, closing, sleeps, file_closed, closed-returns,
}
use tecnicofs.Fs.Race.{closed_down, open_passed-closed_down}
use tecnicofs.Fs.Shutdown.{restart_waits}

abbrev locks : Locking
locks = record { lock = 0; unlock = 0 }

abbrev bind {ℓ κ} : {A : Type ℓ} {B : Type κ} → Option A → (A → Option B) → Option B
bind none f = none
bind (some a) f = f a

abbrev name_a : List ℕ
name_a = b'a' ∷ []

abbrev session : Option (ℤ × ℤ × ℤ × ℤ × List ℕ)
session = bind (tfs_open locks (some (b'/' ∷ name_a)) (pos 1) (initial boot)) λ r.
    bind (tfs_write locks r.0 (1 ∷ 2 ∷ 3 ∷ []) 3 r.1) λ w.
      bind (tfs_open locks (some (b'/' ∷ name_a)) (pos 0) w.1)
        λ q. bind (tfs_read locks q.0 5 q.1) λ t. some (r.0, w.0, q.0, t.0, t.1)

-- Make a file, write three bytes, open it again, ask for five bytes.
session_runs : session ≡ some (pos 0, pos 3, pos 1, pos 3, 1 ∷ 2 ∷ 3 ∷ [])
unfolding tfs_open tfs_write tfs_read open_unsynchronized lookup_unsynchronized open_existing
    open_new truncate write_unsynchronized write_entry ensure_block advance read_unsynchronized
    read_entry initial tfs_init inode_create init_inode inode_delete inode_get state_init
    clear_entries first_free data_block_alloc data_block_free data_block_get find_in_dir find_from
    entry_matches add_dir_entry add_entry_from fill_entry add_to_open_file_table get_open_file_entry
    write_bytes read_bytes memcpy strncpy strncmp_eq byte_of load_int store_int
session_runs = refl

-- One file, `a`, with the i-node 1, and two handles on it.
abbrev one_file : State
one_file = entered (created (initial boot) 1) 0 (pos 1) name_a

abbrev two_handles : State
two_handles = opened_at (opened_at one_file 0 (pos 1) 0) 1 (pos 1) 0

initial-boot-IsValid : IsValid (initial boot)
initial-boot-IsValid = initial-IsValid boot refl

unused_1 : (initial boot).freeinode_ts 1 ≡ free
unfolding initial tfs_init inode_create init_inode state_init data_block_alloc data_block_get
    first_free
unused_1 = refl

IsFile-1 : IsFile (created (initial boot) 1) (pos 1)
IsFile-1 = (refl, omega arith, refl)

one_file-IsValid : IsValid one_file
one_file-IsValid =
    entered-IsValid (created-IsValid 1 initial-boot-IsValid unused_1) (pos 1) name_a 0 IsFile-1

no_handles : (h : ℕ) → one_file.free_open_file_entries h ≡ free
unfolding initial tfs_init inode_create init_inode state_init data_block_alloc data_block_get
    first_free
no_handles h = refl

two_handles-IsValid : IsValid two_handles
two_handles-IsValid =
    opened_at-IsValid 1 (pos 1) 0 (omega arith) (no_handles 1) IsFile-1 (omega arith) (
      opened_at-IsValid 0 (pos 1) 0 (omega arith) (no_handles 0) IsFile-1 (omega arith)
        one_file-IsValid)

Refers-0 : Refers two_handles 0 1
Refers-0 = (omega arith, refl, refl, omega arith, refl)

Refers-1 : Refers two_handles 1 1
Refers-1 = (omega arith, refl, refl, omega arith, refl)

at_start : AtStart two_handles 1
unfolding initial tfs_init inode_create init_inode state_init data_block_alloc data_block_get
    first_free
at_start h lt t q = ground arith

abbrev bytes_78 : List ℕ
bytes_78 = 7 ∷ 8 ∷ []

Reach-safe_example : perform (closes_handle (negsuc 4)) (initial boot) ≢ none
Reach-safe_example = Reach-safe {s = boot} refl start (closes_handle (negsuc 4)) tt

Reach-IsValid_example : IsValid (initial boot)
unfolding perform remove_from_open_file_table
Reach-IsValid_example =
    Reach-IsValid {s = boot} refl (later (closes_handle (negsuc 4)) minus_one start tt refl)

read_unsynchronized-refines_example :
    ReadResult two_handles 1 1 5 (read_unsynchronized (pos 1) 5 two_handles)
read_unsynchronized-refines_example =
    read_unsynchronized-refines two_handles 1 1 5 two_handles-IsValid Refers-1

abbrev state_of : State → Option (ℤ × State) → State
state_of s none = s
state_of s (some x) = x.1

abbrev written : State
written = state_of two_handles (write_unsynchronized (pos 0) bytes_78 2 two_handles)

write_returns_2 : write_unsynchronized (pos 0) bytes_78 2 two_handles ≡ some (pos 2, written)
unfolding tfs_open tfs_write tfs_read open_unsynchronized lookup_unsynchronized open_existing
    open_new truncate write_unsynchronized write_entry ensure_block advance read_unsynchronized
    read_entry initial tfs_init inode_create init_inode inode_delete inode_get state_init
    clear_entries first_free data_block_alloc data_block_free data_block_get find_in_dir find_from
    entry_matches add_dir_entry add_entry_from fill_entry add_to_open_file_table get_open_file_entry
    write_bytes read_bytes memcpy strncpy strncmp_eq byte_of load_int store_int
write_returns_2 = refl

read-after-write_example :
    (u : State) × (read_unsynchronized (pos 1) 2 written ≡ some (pos 2, take 2 bytes_78, u))
read-after-write_example =
    read-after-write two_handles written 0 1 1 2 bytes_78 two_handles-IsValid Refers-0 Refers-1
      (λ e. omega arith) refl (omega arith) (omega arith) write_returns_2

open_existing-Prepared_example :
    Prepared two_handles 1 (pos 2) (open_existing (pos 1) (pos 2) two_handles)
open_existing-Prepared_example =
    open_existing-Prepared 1 (pos 2) two_handles-IsValid IsFile-1 (λ c. at_start)

remove_from_open_file_table-Closing_example :
    Closing two_handles (pos 1) (remove_from_open_file_table (pos 1) two_handles)
remove_from_open_file_table-Closing_example =
    remove_from_open_file_table-Closing two_handles (pos 1)

add_dir_entry-Entering_example :
    Entering one_file (pos 1) bytes_78 (add_dir_entry (pos 0) (pos 1) bytes_78 one_file)
add_dir_entry-Entering_example = add_dir_entry-Entering one_file-IsValid (pos 1) bytes_78 refl

written-IsValid : IsValid written
unfolding perform
written-IsValid =
    after-IsValid (pos 2) written (perform (writes 0 bytes_78 2) two_handles)
      (perform-Defined (writes 0 bytes_78 2) two_handles-IsValid
        ((omega arith, refl), omega arith, omega arith))
      write_returns_2

Refers-written : Refers written 0 1
unfolding tfs_open tfs_write tfs_read open_unsynchronized lookup_unsynchronized open_existing
    open_new truncate write_unsynchronized write_entry ensure_block advance read_unsynchronized
    read_entry initial tfs_init inode_create init_inode inode_delete inode_get state_init
    clear_entries first_free data_block_alloc data_block_free data_block_get find_in_dir find_from
    entry_matches add_dir_entry add_entry_from fill_entry add_to_open_file_table get_open_file_entry
    write_bytes read_bytes memcpy strncpy strncmp_eq byte_of load_int store_int
Refers-written = (omega arith, refl, refl, omega arith, refl)

offset_written : offset_of written 0 ≡ 2
unfolding tfs_open tfs_write tfs_read open_unsynchronized lookup_unsynchronized open_existing
    open_new truncate write_unsynchronized write_entry ensure_block advance read_unsynchronized
    read_entry initial tfs_init inode_create init_inode inode_delete inode_get state_init
    clear_entries first_free data_block_alloc data_block_free data_block_get find_in_dir find_from
    entry_matches add_dir_entry add_entry_from fill_entry add_to_open_file_table get_open_file_entry
    write_bytes read_bytes memcpy strncpy strncmp_eq byte_of load_int store_int
offset_written = refl

found_in_written : find_in_dir (pos 0) name_a written ≡ pos 1
unfolding tfs_open tfs_write tfs_read open_unsynchronized lookup_unsynchronized open_existing
    open_new truncate write_unsynchronized write_entry ensure_block advance read_unsynchronized
    read_entry initial tfs_init inode_create init_inode inode_delete inode_get state_init
    clear_entries first_free data_block_alloc data_block_free data_block_get find_in_dir find_from
    entry_matches add_dir_entry add_entry_from fill_entry add_to_open_file_table get_open_file_entry
    write_bytes read_bytes memcpy strncpy strncmp_eq byte_of load_int store_int
found_in_written = refl

stale_read_example :
    (ret : ℤ) × (t : State) × (open_unsynchronized (path_of name_a) (pos 2) written ≡ some (ret, t))
    × (content t 1 ≡ [])
    × (read_unsynchronized (pos 0) 5 t
        ≡ some (
          pos 5,
          read_bytes written.fs_data (block_at written 1 + offset_of written 0) 5,
          set_offset t 0 (offset_of written 0 + 5),
        ))
stale_read_example =
    stale_read 0 1 5 name_a (pos 2) written-IsValid Refers-written (omega arith) found_in_written
      refl (omega (arith, offset_written)) (omega arith) (omega (arith, offset_written))

unopened_entry : (inumber_of (initial boot) 3 ≡ pos 0) × (offset_of (initial boot) 3 ≡ 0)
unfolding initial tfs_init inode_create init_inode state_init data_block_alloc data_block_get
    first_free
unopened_entry = (refl, refl)

unopened_write_example :
    (t : State) × (write_unsynchronized (pos 3) bytes_78 2 (initial boot) ≡ some (pos 2, t))
    × (content t 0 ≡ overwrite (content (initial boot) 0) 0 bytes_78)
unopened_write_example =
    unopened_write 3 bytes_78 initial-boot-IsValid (omega arith) unopened_entry.0 unopened_entry.1
      (omega arith) (omega arith)

abbrev same_bytes : ℕ → List ℕ
same_bytes zero = []
same_bytes (suc n) = b'x' ∷ same_bytes n

same_bytes-IsString : (n : ℕ) → IsString (same_bytes n)
same_bytes-IsString zero = tt
same_bytes-IsString (suc n) = (omega arith, same_bytes-IsString n)

abbrev unnamed : State
unnamed = created (initial boot) 1

unnamed-IsValid : IsValid unnamed
unnamed-IsValid = created-IsValid 1 initial-boot-IsValid unused_1

first_entry-IsEmpty : IsEmpty unnamed.fs_data (block_at unnamed 0) 0
unfolding tfs_open tfs_write tfs_read open_unsynchronized lookup_unsynchronized open_existing
    open_new truncate write_unsynchronized write_entry ensure_block advance read_unsynchronized
    read_entry initial tfs_init inode_create init_inode inode_delete inode_get state_init
    clear_entries first_free data_block_alloc data_block_free data_block_get find_in_dir find_from
    entry_matches add_dir_entry add_entry_from fill_entry add_to_open_file_table get_open_file_entry
    write_bytes read_bytes memcpy strncpy strncmp_eq byte_of load_int store_int
first_entry-IsEmpty = refl

nothing_found : (name : List ℕ) → find_in_dir (pos 0) name unnamed ≡ minus_one
nothing_found name =
    find_in_dir-created 1 initial-boot-IsValid unused_1 name ∙ initial-empty boot name refl

long_name_not_found_example :
    find_in_dir (pos 0) (same_bytes 40) (entered unnamed 0 (pos 1) (same_bytes 40))
    ≡ find_in_dir (pos 0) (same_bytes 40) unnamed
long_name_not_found_example =
    long_name_not_found 0 (pos 1) (same_bytes 40) unnamed-IsValid IsFile-1 first_entry-IsEmpty
      (same_bytes-IsString 40) (omega arith)

find_in_dir-entered_example : find_in_dir (pos 0) name_a (entered unnamed 0 (pos 1) name_a) ≡ pos 1
find_in_dir-entered_example =
    find_in_dir-entered unnamed-IsValid (pos 1) name_a 0 IsFile-1 name_a (omega arith)
      (omega arith, tt) (omega arith, tt) refl (nothing_found name_a)

find_in_dir-entered_other_example :
    find_in_dir (pos 0) bytes_78 (entered unnamed 0 (pos 1) name_a)
    ≡ find_in_dir (pos 0) bytes_78 unnamed
find_in_dir-entered_other_example =
    find_in_dir-entered_other unnamed-IsValid (pos 1) name_a 0 IsFile-1 bytes_78 first_entry-IsEmpty
      (omega arith, tt) (omega arith, (omega arith, tt)) refl

restart_waits_example :
    ((z : ℤ)
      → remove_from_open_file_table z (initial (record boot { open_files_count = pos 1 }))
        ≡ (minus_one, initial (record boot { open_files_count = pos 1 })))
    × (tfs_destroy_after_all_closed (initial (record boot { open_files_count = pos 1 })) ≡ none)
restart_waits_example = restart_waits (record boot { open_files_count = pos 1 }) refl

found_a : find_in_dir (pos 0) name_a one_file ≡ pos 1
found_a =
    find_in_dir-entered unnamed-IsValid (pos 1) name_a 0 IsFile-1 name_a (omega arith)
      (omega arith, tt) (omega arith, tt) refl (nothing_found name_a)

none_open : open_count one_file ≡ 0
unfolding initial tfs_init inode_create init_inode state_init data_block_alloc data_block_get
    first_free count_below
none_open = refl

open_passed-closed_down_example :
    (tfs_destroy_after_all_closed one_file ≡ some (pos 0, closed_down one_file))
    × (tfs_open locks (path_of name_a) (pos 0) (closed_down one_file)
        ≡ some (minus_one, closed_down one_file))
    × ((k : ℕ) × (u : State) × (open_passed locks (path_of name_a) (pos 0) (closed_down one_file)
          ≡ some (pos k, u))
        × IsValid u
        × (u.open_flag ≡ false)
        × (u.open_files_count ≡ pos 1))
open_passed-closed_down_example =
    open_passed-closed_down locks one_file name_a (pos 0) 1 refl refl one_file-IsValid none_open
      (omega arith) found_a refl

-- One handle is open, and a thread asks for the shutdown.
abbrev waiting_files : State
waiting_files = record boot {
  open_files_count = pos 1;
  free_open_file_entries = λ j. if j == 0 then taken else free;
}

abbrev asked_shutdown : Waiting
asked_shutdown = record { files = waiting_files; waiter = testing }

abbrev slept : Waiting
slept = record asked_shutdown { waiter = sleeping }

waiting_counted : waiting_files.open_files_count ≡ pos (open_count waiting_files)
unfolding count_below
waiting_counted = refl

closed_count : open_count (closing (pos 0) slept).files ≡ 0
unfolding count_below remove_from_open_file_table
closed_count = refl

sleeps_first : tfs_destroy_after_all_closed waiting_files ≡ none
unfolding tfs_destroy_after_all_closed
sleeps_first = refl

closed-returns_example :
    ((closing (pos 0) slept).waiter ≡ returned)
    ⊎ (((closing (pos 0) slept).waiter ≡ testing)
        × (tfs_destroy_after_all_closed (closing (pos 0) slept).files
            ≡ some (pos 0, record (closing (pos 0) slept).files { open_flag = false })))
closed-returns_example =
    closed-returns asked_shutdown (closing (pos 0) slept) waiting_counted refl
      (Waits.later (Waits.later Waits.start (sleeps refl sleeps_first refl))
        (file_closed (pos 0) refl))
      closed_count

add_to_open_file_table-Adding_example :
    Adding two_handles (pos 1) 0 (add_to_open_file_table (pos 1) 0 two_handles)
add_to_open_file_table-Adding_example = add_to_open_file_table-Adding two_handles (pos 1) 0

inode_create-Creating_example : Creating two_handles (inode_create t_file two_handles)
inode_create-Creating_example = inode_create-Creating two_handles
