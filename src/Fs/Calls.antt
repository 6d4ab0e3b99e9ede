-- ===== src/Fs/Calls.antt =====
-- Sequences of calls of the file system by clients that keep its rules: only handles that are open,
-- buffers that hold the bytes to write, paths with a name, and O_TRUNC only for files that no open
-- handle has moved into. The global lock makes each call one step.
use tecnicofs.Base.{
  ℕ, ◌-◌, ◌≤◌, ◌<◌, ◌≡◌, refl, arith, ap, ◌∙◌, ◌≢◌, sym, subst, some, none, Option, true, List,
  length, ℤ, pos, minus_one, pos_part,
}
use Prim.Native.Nat.{min}
use tecnicofs.Memory.Strings.{IsString}
use tecnicofs.Fs.State.{State, taken, max_open_files}
use tecnicofs.Fs.Dir.{find_in_dir}
use tecnicofs.Fs.Content.{length-content}
use tecnicofs.Fs.Pointers.{valid_inumber-pos}
use tecnicofs.Fs.OpenFiles.{add_to_open_file_table, remove_from_open_file_table}
use tecnicofs.Fs.Operations.{
  has_flag, tfs_o_trunc, open_unsynchronized, write_unsynchronized, read_unsynchronized,
}
use tecnicofs.Fs.Invariant.{IsFile, IsValid, inumber_of, size_of, offset_of}
use tecnicofs.Fs.Invariant.Steps.{Refers}
use tecnicofs.Fs.Existing.{AtStart}
use tecnicofs.Fs.Handles.{
  Closing, closes, not_open, remove_from_open_file_table-Closing, closed-IsValid, Adding, no_entry,
  adds, add_to_open_file_table-Adding, opened_at-IsValid,
}
use tecnicofs.Fs.Init.{initial, initial-IsValid}
use tecnicofs.Fs.Open
use tecnicofs.Fs.Open.{path_of, Making, Opening, NewFile, open_unsynchronized-Opening}
use tecnicofs.Fs.Write.{WriteResult, wrote, disk_full, write_unsynchronized-refines}
use tecnicofs.Fs.Read.{ReadResult, read_unsynchronized-refines}

pub data Call : Type 0 where
  opens : (rest : List ℕ) (flags : ℤ) → Call
  closes_handle : (fhandle : ℤ) → Call
  writes : (h : ℕ) (buffer : List ℕ) (to_write : ℕ) → Call
  reads : (h len : ℕ) → Call

-- The result and the state after a call, `none` for undefined behaviour; the bytes that a read gives are left out.
unfoldable pub perform : Call → State → Option (ℤ × State)
perform (opens rest flags) s = open_unsynchronized (path_of rest) flags s
perform (closes_handle z) s = some (remove_from_open_file_table z s)
perform (writes h buffer n) s = write_unsynchronized (pos h) buffer n s
perform (reads h len) s = elim (read_unsynchronized (pos h) len s) [
  | none ↦ none
  | some (r, bytes, t) ↦ some (r, t)
]

abbrev pub OpenHandle : State → ℕ → Type 0
OpenHandle s h = (h < max_open_files) × (s.free_open_file_entries h ≡ taken)

-- The rules that the client keeps in the state `s`.
abbrev pub Allowed : State → Call → Type 0
Allowed s (opens rest flags) =
    (0 < length rest)
    × IsString rest
    × ((i : ℕ)
        → find_in_dir (pos 0) rest s ≡ pos i
        → has_flag flags tfs_o_trunc ≡ true
        → AtStart s i)
Allowed s (closes_handle z) = Unit {0}
Allowed s (writes h buffer n) = OpenHandle s h × (n ≤ length buffer) × (n < 0x8000000000000000)
Allowed s (reads h len) = OpenHandle s h

-- The call is defined, and leaves a valid state.
pub data Defined (r : Option (ℤ × State)) : Type 0 where
  defined : (z : ℤ) (t : State) → r ≡ some (z, t) → IsValid t → Defined r

handle-Refers :
    {s : State} (h : ℕ) → IsValid s → OpenHandle s h → Refers s h (pos_part (inumber_of s h))
handle-Refers {s} h v o =
    let q = v.opened h o.0 o.1 in (o.0, o.1, valid_inumber-pos (inumber_of s h) q.0.0, q.0.1, q.0.2)

add-Defined :
    {t : State} (i offset : ℕ) (r : ℤ × State)
    → IsValid t
    → IsFile t (pos i)
    → offset ≤ size_of t i
    → Adding t (pos i) offset r
    → Defined (some r)
add-Defined {t} i offset r v f le (no_entry _ e) = defined minus_one t (ap (λ x. some x) e) v
add-Defined {t} i offset r v f le (adds k lt is_free _ e) =
    defined (pos k) _ (ap (λ x. some x) e) (opened_at-IsValid k (pos i) offset lt is_free f le v)

add_to-Defined :
    {t : State} (i offset : ℕ) (r : Option (ℤ × State))
    → r ≡ some (add_to_open_file_table (pos i) offset t)
    → IsValid t
    → IsFile t (pos i)
    → offset ≤ size_of t i
    → Defined r
add_to-Defined {t} i offset r e v f le =
    rw e (add-Defined i offset _ v f le (add_to_open_file_table-Adding t (pos i) offset))

Making-Defined :
    {s : State} (rest : List ℕ) {r : Option (ℤ × State)} → IsValid s → Making s rest r → Defined r
Making-Defined {s} rest v (Open.no_inode _ e) = defined minus_one s e v
Making-Defined rest v (Open.no_entry t _ e w _ _) = defined minus_one t e w
Making-Defined rest v (Open.makes i t r' _ e f _ a) =
    rw e (add-Defined i 0 r' f.valid f.file (omega arith) a)

Opening-Defined :
    {s : State} (rest : List ℕ) (flags : ℤ) {r : Option (ℤ × State)}
    → IsValid s
    → Opening s rest flags r
    → Defined r
Opening-Defined {s} rest flags v (Open.existing i r' _ _ e p) =
    add_to-Defined i p.offset _ (e ∙ ap (λ x. some x) p.returns) p.valid p.file
      (ground (arith, p.at_end, length-content p.before i))
Opening-Defined rest flags v (Open.new _ _ m) = Making-Defined rest v m
Opening-Defined {s} rest flags v (Open.missing _ _ e) = defined minus_one s e v

Closing-Defined : {s : State} (z : ℤ) (r : ℤ × State) → IsValid s → Closing s z r → Defined (some r)
Closing-Defined z r v (closes h _ lt t e _) =
    defined (pos 0) _ (ap (λ x. some x) e) (closed-IsValid h lt t v)
Closing-Defined {s} z r v (not_open _ e) = defined minus_one s (ap (λ x. some x) e) v

writing-Defined :
    {s : State} (h i w : ℕ) (buffer : List ℕ) {r : Option (ℤ × State)}
    → WriteResult s h i w buffer r
    → Defined r
writing-Defined h i w buffer (wrote t e p) = defined (pos w) t e p.valid
writing-Defined h i w buffer (disk_full t e _ _ _ v _) = defined minus_one t e v

reading-Defined :
    {s : State} (h i len : ℕ) {r : Option (ℤ × List ℕ × State)}
    → ReadResult s h i len r
    → Defined (elim r [ none ↦ none | some (z, bytes, t) ↦ some (z, t) ])
reading-Defined {s} h i len p =
    rw p.returns (defined (pos (min len (size_of s i - offset_of s h))) p.after refl p.valid)

some≢none : {x : ℤ × State} → some x ≢ none
some≢none e = cc

-- Each allowed open, close, write or read is defined behaviour in a valid state, and leaves a
-- valid state.
pub perform-Defined : {s : State} (c : Call) → IsValid s → Allowed s c → Defined (perform c s)
unfolding perform
perform-Defined (opens rest flags) v (long, hs, safe) =
    Opening-Defined rest flags v (open_unsynchronized-Opening rest flags v hs long safe)
perform-Defined {s} (closes_handle z) v a =
    Closing-Defined z _ v (remove_from_open_file_table-Closing s z)
perform-Defined {s} (writes h buffer n) v (o, fits, small) =
    writing-Defined h _ _ buffer
      (write_unsynchronized-refines s h _ n buffer v (handle-Refers h v o) fits small)
perform-Defined {s} (reads h len) v o =
    reading-Defined h _ len (read_unsynchronized-refines s h _ len v (handle-Refers h v o))

-- The states that clients reach by calls that keep the rules, from the start of the file system.
pub data Reach (s : State) : State → Type 0 where
  start : Reach s (initial s)
  later :
      {t u : State} (c : Call) (z : ℤ)
      → Reach s t
      → Allowed t c
      → perform c t ≡ some (z, u)
      → Reach s u

pub after-IsValid :
    (z : ℤ) (u : State) (r : Option (ℤ × State)) → Defined r → r ≡ some (z, u) → IsValid u
after-IsValid z u r (defined z' t e v) q =
    subst IsValid (ap (λ o. elim o [ none ↦ t | some x ↦ x.1 ]) (sym e ∙ q)) v

Defined-ne-none : {r : Option (ℤ × State)} → Defined r → r ≢ none
Defined-ne-none (defined z t e v) q = some≢none (sym e ∙ q)

-- From a start of the file system with no file open, every state that allowed opens, closes,
-- writes and reads reach is valid: the root directory has its block, sizes fit a block, no two
-- non-empty nodes share a block, all handles stand inside their files, directory entries name
-- files, and the count of open files is right.
pub Reach-IsValid : {s t : State} → s.open_files_count ≡ pos 0 → Reach s t → IsValid t
Reach-IsValid {s} e start = initial-IsValid s e
Reach-IsValid e (later {t} {u} c z r a q) =
    after-IsValid z u (perform c t) (perform-Defined c (Reach-IsValid e r) a) q

-- From a start of the file system with no file open, no sequence of opens, closes, writes and
-- reads meets undefined behaviour, as long as each call is allowed: writes and reads name an open
-- handle, a write takes at most the bytes of its buffer and less than 2^63, a path is a slash and
-- a non-empty string, and O_TRUNC is used only on a file into which no open handle has moved.
pub Reach-safe :
    {s t : State}
    → s.open_files_count ≡ pos 0
    → Reach s t
    → (c : Call) → Allowed t c
    → perform c t ≢ none
Reach-safe e r c a q = Defined-ne-none (perform-Defined c (Reach-IsValid e r) a) q
