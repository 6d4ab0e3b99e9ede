-- ===== src/Fs/Handles.antt =====
-- Opening and closing of handles: add_to_open_file_table and remove_from_open_file_table of
-- parte-2/fs/state.c, with the count of open files.
use tecnicofs.Base.{
  ltb, ◌&&◌, ℕ, ◌+◌, ◌≤◌, ◌<◌, ◌≡◌, refl, arith, Option-cases, inl, inr, Bool-cases, ℤ, pos, negsuc,
  minus_one, pos_part, update, increment, decrement, count_below, count_below-update,
}
use tecnicofs.Fs.State.{State, free, taken, is_taken, max_open_files}
use tecnicofs.Fs.Blocks.{first_free}
use tecnicofs.Fs.Blocks.Search.{first_free-none, first_free-some, first_free-least}
use tecnicofs.Fs.OpenFiles.{add_to_open_file_table, remove_from_open_file_table}
use tecnicofs.Fs.Invariant.{size_of, IsValid, IsFile}

-- How many entries of the open file table are taken.
abbrev pub open_count : State → ℕ
open_count s = count_below is_taken max_open_files s.free_open_file_entries

abbrev pub closed : State → ℕ → State
closed s h = record s {
  open_files_count = decrement s.open_files_count;
  free_open_file_entries = update s.free_open_file_entries h free;
}

open_count-closed :
    (s : State) (h : ℕ)
    → h < max_open_files
    → s.free_open_file_entries h ≡ taken
    → open_count (closed s h) + 1 ≡ open_count s
open_count-closed s h lt t =
    ground (arith, count_below-update is_taken max_open_files s.free_open_file_entries h free)

pub closed-IsValid :
    {s : State} (h : ℕ)
    → h < max_open_files
    → s.free_open_file_entries h ≡ taken
    → IsValid s
    → IsValid (closed s h)
closed-IsValid {s} h lt t v = record {
  root_in_use = v.root_in_use;
  root_type = v.root_type;
  root_size = v.root_size;
  fits = v.fits;
  owns = v.owns;
  opened = λ g l q. v.opened g l (ground arith);
  counted = ground (arith, v.counted, open_count-closed s h lt t);
  entries = v.entries;
}

abbrev pub opened_at : State → ℕ → ℤ → ℕ → State
opened_at s k inumber offset = record s {
  free_open_file_entries = update s.free_open_file_entries k taken;
  open_file_table =
      update s.open_file_table k (record { of_inumber = inumber; of_offset = offset });
  open_files_count = increment s.open_files_count;
}

pub opened_at-IsValid :
    {s : State} (k : ℕ) (z : ℤ) (offset : ℕ)
    → k < max_open_files
    → s.free_open_file_entries k ≡ free
    → IsFile s z
    → offset ≤ size_of s (pos_part z)
    → IsValid s
    → IsValid (opened_at s k z offset)
opened_at-IsValid {s} k z offset lt is_free f le v = record {
  root_in_use = v.root_in_use;
  root_type = v.root_type;
  root_size = v.root_size;
  fits = v.fits;
  owns = v.owns;
  opened = λ g l q. ground (arith, v.opened g l);
  counted = ground (
    arith,
    v.counted,
    count_below-update is_taken max_open_files s.free_open_file_entries k taken,
  );
  entries = v.entries;
}

-- What a call of remove_from_open_file_table does.
pub data Closing (s : State) (z : ℤ) (r : ℤ × State) : Type 0 where
  closes :
      (h : ℕ)
      → z ≡ pos h
      → h < max_open_files
      → s.free_open_file_entries h ≡ taken
      → r ≡ (pos 0, closed s h)
      → open_count (closed s h) + 1 ≡ open_count s
      → Closing s z r
  not_open :
      ((h : ℕ) → z ≡ pos h → h < max_open_files → s.free_open_file_entries h ≡ free)
      → r ≡ (minus_one, s)
      → Closing s z r

Closing-pos : (s : State) (h : ℕ) → Closing s (pos h) (remove_from_open_file_table (pos h) s)
unfolding remove_from_open_file_table
Closing-pos s h =
    elim (Bool-cases (ltb h max_open_files && is_taken (s.free_open_file_entries h))) [
      | inl ok ↦
          let lt : h < max_open_files = ground arith in
          let t : s.free_open_file_entries h ≡ taken = ground arith in
          closes h refl lt t (ground arith) (open_count-closed s h lt t)
      | inr bad ↦
          not_open (λ g e lt. let q : h ≡ g = ground arith in rw (← q) (ground arith))
            (ground arith)
    ]

-- A handle is closed exactly if it is open: the call returns 0, frees the entry and counts one
-- open file less, as there is. At any other number, negative ones included, it returns -1 and
-- changes nothing.
pub remove_from_open_file_table-Closing :
    (s : State) (z : ℤ) → Closing s z (remove_from_open_file_table z s)
unfolding remove_from_open_file_table
remove_from_open_file_table-Closing s (pos h) = Closing-pos s h
remove_from_open_file_table-Closing s (negsuc n) = not_open (λ h e lt. cc) refl

-- What a call of add_to_open_file_table does.
pub data Adding (s : State) (z : ℤ) (offset : ℕ) (r : ℤ × State) : Type 0 where
  no_entry :
      ((h : ℕ) → h < max_open_files → s.free_open_file_entries h ≡ taken)
      → r ≡ (minus_one, s)
      → Adding s z offset r
  adds :
      (k : ℕ)
      → k < max_open_files
      → s.free_open_file_entries k ≡ free
      → ((h : ℕ) → h < k → s.free_open_file_entries h ≡ taken)
      → r ≡ (pos k, opened_at s k z offset)
      → Adding s z offset r

-- Adding a handle takes the free entry of least number, fills it with the number and the offset,
-- counts one open file more and returns the entry; or it returns -1 and changes nothing, and then
-- all entries are taken.
pub add_to_open_file_table-Adding :
    (s : State) (z : ℤ) (offset : ℕ) → Adding s z offset (add_to_open_file_table z offset s)
unfolding add_to_open_file_table
add_to_open_file_table-Adding s z offset =
    elim (Option-cases (first_free max_open_files 0 s.free_open_file_entries)) [
      | inl e ↦
          no_entry
            (λ h lt.
              first_free-none s.free_open_file_entries max_open_files 0 h e (omega arith)
                (omega arith))
            (rw (e, add_to_open_file_table))
      | inr (k, e) ↦
          let f = first_free-some s.free_open_file_entries max_open_files 0 k e in
          adds k (omega arith) f.2
            (λ h lt.
              first_free-least s.free_open_file_entries max_open_files 0 k h e (omega arith) lt)
            (rw (e, add_to_open_file_table))
    ]
