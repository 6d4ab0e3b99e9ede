-- ===== src/Fs/Open.antt =====
-- _tfs_open_unsynchronized of parte-2/fs/operations.c: the branch of a new file, and the whole call.
use tecnicofs.Base.{
  ℕ, ◌-◌, ◌<◌, ◌≡◌, ◌≢◌, refl, arith, ap, ◌∙◌, sym, some, true, false, ◌⊎◌, inl, inr, List, [], ◌∷◌,
  length, take, take-all, Bool-cases, Option, ℤ, pos, minus_one, is_minus_one, pos_part,
}
use tecnicofs.Memory.Strings.{IsString, same_prefix_iff}
use tecnicofs.Memory.Blocks.{read_bytes-zero}
use tecnicofs.Fs.State.{State, t_file, free, max_file_name, max_dir_entries, inode_table_size}
use tecnicofs.Fs.Blocks.{valid_inumber}
use tecnicofs.Fs.Inodes.{inode_create, inode_delete}
use tecnicofs.Fs.Dir.{add_dir_entry, find_in_dir, find_from}
use tecnicofs.Fs.Dir.Entries.{answers}
use tecnicofs.Fs.Dir.Lookup.{IsEmpty}
use tecnicofs.Fs.OpenFiles.{add_to_open_file_table}
use tecnicofs.Fs.Operations.{
  Name, has_flag, tfs_o_creat, tfs_o_trunc, valid_pathname, lookup_unsynchronized, open_existing,
  open_new, open_unsynchronized,
}
use tecnicofs.Fs.Invariant.{InUse, block_at, IsFile, IsValid, root_entry, root_entry-cong}
use tecnicofs.Fs.Content.{content}
use tecnicofs.Fs.Create.{
  created, dropped, Creating, all_used, creates, inode_create-Creating, not_root, created-IsValid,
  dropped-IsValid, content-created, content-dropped,
}
use tecnicofs.Fs.Handles.{Adding, add_to_open_file_table-Adding}
use tecnicofs.Fs.Existing.{AtStart, Prepared, open_existing-Prepared}
use tecnicofs.Fs.Pointers.{valid_inumber-pos}
use tecnicofs.Fs.Root.{
  entered, Entering, no_name, dir_full, enters, add_dir_entry-Entering, entered-IsValid,
  content-entered, find_in_dir-entered, find_in_dir-entered_other, find_in_dir-root,
  find_in_dir-IsFile,
}

-- The path of the entry `rest` of the root directory.
abbrev pub path_of : List ℕ → Name
path_of rest = some (b'/' ∷ rest)

-- The file `i` was made under the name `rest`.
pub record NewFile (s : State) (rest : List ℕ) (i : ℕ) (t : State) : Type 0 where
  pub unused : s.freeinode_ts i ≡ free
  pub valid : IsValid t
  pub file : IsFile t (pos i)
  pub text : content t i ≡ []
  pub others : (j : ℕ) → InUse s j → j ≢ 0 → content t j ≡ content s j
  pub found : length rest < max_file_name → find_in_dir (pos 0) rest t ≡ pos i
  pub other_names :
      (q : List ℕ)
      → IsString q
      → length rest < max_file_name
      → q ≢ rest
      → find_in_dir (pos 0) q t ≡ find_in_dir (pos 0) q s

inode_delete-created :
    (s : State) (i : ℕ)
    → valid_inumber (pos i) ≡ true
    → inode_delete (pos i) (created s i) ≡ (pos 0, dropped s i)
unfolding inode_delete
inode_delete-created s i ok = ground arith

pub find_in_dir-created :
    {s : State} (i : ℕ) (v : IsValid s) (unused : s.freeinode_ts i ≡ free) (q : List ℕ)
    → find_in_dir (pos 0) q (created s i) ≡ find_in_dir (pos 0) q s
find_in_dir-created {s} i v unused q =
    find_in_dir-root (created-IsValid i v unused) q
    ∙ ap (λ a. find_from max_dir_entries 0 a q s.fs_data) (ground (arith, not_root i v unused))
    ∙ sym (find_in_dir-root v q)

answers_iff :
    (rest q : List ℕ)
    → length rest < max_file_name
    → (answers rest q ≡ true → rest ≡ q) × (rest ≡ q → answers rest q ≡ true)
answers_iff rest q lt =
    let e : take (max_file_name - 1) rest ≡ rest =
      take-all (max_file_name - 1) rest (omega arith) in
    let same =
      same_prefix_iff max_file_name (take (max_file_name - 1) rest) q
        (omega (arith, ap length e)) in
    (λ h. sym e ∙ same.0 h, λ p. same.1 (e ∙ p))

-- What open_new does for a name that is not there: all i-nodes are in use; the name is empty or the
-- directory full, and the new i-node is given back; or the file is made, and a handle added.
pub data Making (s : State) (rest : List ℕ) (r : Option (ℤ × State)) : Type 0 where
  no_inode :
      ((i : ℕ) → i < inode_table_size → InUse s i) → r ≡ some (minus_one, s) → Making s rest r
  no_entry :
      (t : State)
      → (length rest ≡ 0) ⊎ ((k : ℕ) → k < max_dir_entries → is_minus_one (root_entry s k) ≡ false)
      → r ≡ some (minus_one, t)
      → IsValid t
      → ((j : ℕ) → InUse s j → content t j ≡ content s j)
      → ((j : ℕ) → t.freeinode_ts j ≡ s.freeinode_ts j)
      → Making s rest r
  makes :
      (i : ℕ) (t : State) (r' : ℤ × State)
      → 0 < length rest
      → r ≡ some r'
      → NewFile s rest i t
      → t.free_open_file_entries ≡ s.free_open_file_entries
      → Adding t (pos i) 0 r'
      → Making s rest r

module _ {s : State} (rest : List ℕ) (v : IsValid s) (hs : IsString rest) where
  entered-NewFile :
      (i j : ℕ)
      → i < inode_table_size
      → (unused : s.freeinode_ts i ≡ free) → j < max_dir_entries
      → IsEmpty s.fs_data (block_at (created s i) 0) j
      → find_in_dir (pos 0) rest s ≡ minus_one
      → NewFile s rest i (entered (created s i) j (pos i) rest)
  entered-NewFile i j lt unused room empty none_yet =
      let c : State = created s i in
      let cv : IsValid c = created-IsValid i v unused in
      let f : IsFile c (pos i) = (ground arith, not_root i v unused, ground arith) in
      record {
        unused = unused;
        valid = entered-IsValid cv (pos i) rest j f;
        file = f;
        text = read_bytes-zero _ _ _ (ground arith);
        others = λ q u ne.
            content-entered cv (pos i) rest j f q room (ground arith) ne
            ∙ content-created i v unused q u;
        found = λ short.
            find_in_dir-entered cv (pos i) rest j f rest room hs hs
              ((answers_iff rest rest short).1 refl)
              (find_in_dir-created i v unused rest ∙ none_yet);
        other_names = λ q hq short ne.
            find_in_dir-entered_other cv (pos i) rest j f q empty hs hq
              (elim (Bool-cases (answers rest q)) [
                | inl yes_it ↦ absurd (ne (sym ((answers_iff rest q short).0 yes_it)))
                | inr not_it ↦ not_it
              ])
            ∙ find_in_dir-created i v unused q;
      }

  created-entry :
      (i : ℕ) (unused : s.freeinode_ts i ≡ free) (k : ℕ)
      → root_entry (created s i) k ≡ root_entry s k
  created-entry i unused k =
      root_entry-cong s (created s i) k (ground (arith, not_root i v unused)) refl

  open_new-Entering :
      (i : ℕ)
      → i < inode_table_size
      → s.freeinode_ts i ≡ free
      → find_in_dir (pos 0) rest s ≡ minus_one
      → inode_create t_file s ≡ (pos i, created s i)
      → Entering (created s i) (pos i) rest (add_dir_entry (pos 0) (pos i) rest (created s i))
      → Making s rest (open_new (path_of rest) s)
  unfolding open_new
  open_new-Entering i lt unused none_yet e (enters j nonempty room empty _ q) =
      let t : State = entered (created s i) j (pos i) rest in
      makes i t (add_to_open_file_table (pos i) 0 t) nonempty (rw (e, q, open_new))
        (entered-NewFile i j lt unused room empty none_yet) refl
        (add_to_open_file_table-Adding t (pos i) 0)
  open_new-Entering i lt unused none_yet e (no_name z q) =
      no_entry (dropped s i) (inl z) (rw (e, q, inode_delete-created s i (ground arith), open_new))
        (dropped-IsValid i v unused) (content-dropped i v unused) (λ j. ground arith)
  open_new-Entering i lt unused none_yet e (dir_full _ all q) =
      no_entry (dropped s i)
        (inr (λ k l. sym (ap is_minus_one (created-entry i unused k)) ∙ all k l))
        (rw (e, q, inode_delete-created s i (ground arith), open_new)) (dropped-IsValid i v unused)
        (content-dropped i v unused) (λ j. ground arith)

  open_new-Creating :
      find_in_dir (pos 0) rest s ≡ minus_one
      → Creating s (inode_create t_file s)
      → Making s rest (open_new (path_of rest) s)
  unfolding open_new
  open_new-Creating none_yet (all_used all e) = no_inode all (rw (e, open_new))
  open_new-Creating none_yet (creates i lt unused _ e) =
      open_new-Entering i lt unused none_yet e
        (add_dir_entry-Entering (created-IsValid i v unused) (pos i) rest (ground arith))

  pub open_new-Making :
      find_in_dir (pos 0) rest s ≡ minus_one → Making s rest (open_new (path_of rest) s)
  open_new-Making none_yet = open_new-Creating none_yet (inode_create-Creating s)

-- What a call does: the file exists; or it does not, and is made or not, as O_CREAT says.
pub data Opening (s : State) (rest : List ℕ) (flags : ℤ) (r : Option (ℤ × State)) : Type 0 where
  existing :
      (i : ℕ) (r' : ℤ × State)
      → find_in_dir (pos 0) rest s ≡ pos i
      → IsFile s (pos i)
      → r ≡ some r'
      → Prepared s i flags r'
      → Opening s rest flags r
  new :
      find_in_dir (pos 0) rest s ≡ minus_one
      → has_flag flags tfs_o_creat ≡ true
      → Making s rest r
      → Opening s rest flags r
  missing :
      find_in_dir (pos 0) rest s ≡ minus_one
      → has_flag flags tfs_o_creat ≡ false
      → r ≡ some (minus_one, s)
      → Opening s rest flags r

-- A lookup by a path is a search in the root directory.
pub lookup_unsynchronized-path :
    (s : State) (rest : List ℕ)
    → 0 < length rest
    → lookup_unsynchronized (path_of rest) s ≡ find_in_dir (pos 0) rest s
unfolding lookup_unsynchronized
lookup_unsynchronized-path s rest h =
    let ok : valid_pathname (path_of rest) ≡ true = ground arith in rw (ok, lookup_unsynchronized)

module _ {s : State} (rest : List ℕ) (flags : ℤ) (v : IsValid s) (hs : IsString rest)
    (h : 0 < length rest) where
  open_unsynchronized-by :
      (find_in_dir (pos 0) rest s ≡ minus_one) ⊎ IsFile s (find_in_dir (pos 0) rest s)
      → ((i : ℕ)
          → find_in_dir (pos 0) rest s ≡ pos i
          → has_flag flags tfs_o_trunc ≡ true
          → AtStart s i)
      → Opening s rest flags (open_unsynchronized (path_of rest) flags s)
  unfolding open_unsynchronized
  open_unsynchronized-by (inl e) safe =
      let q : lookup_unsynchronized (path_of rest) s ≡ minus_one =
        lookup_unsynchronized-path s rest h ∙ e in
      elim (Bool-cases (has_flag flags tfs_o_creat)) [
        | inl c ↦ new e c (rw (q, c, open_unsynchronized) (open_new-Making rest v hs e))
        | inr c ↦ missing e c (rw (q, c, open_unsynchronized))
      ]
  open_unsynchronized-by (inr f) safe =
      let i : ℕ = pos_part (find_in_dir (pos 0) rest s) in
      let e : find_in_dir (pos 0) rest s ≡ pos i = valid_inumber-pos _ f.0 in
      let q : lookup_unsynchronized (path_of rest) s ≡ pos i =
        lookup_unsynchronized-path s rest h ∙ e in
      let fi : IsFile s (pos i) = (rw e at (f.0), f.1, f.2) in
      existing i (open_existing (pos i) flags s) e fi (rw (q, open_unsynchronized))
        (open_existing-Prepared i flags v fi (safe i e))

  pub open_unsynchronized-Opening :
      ((i : ℕ)
        → find_in_dir (pos 0) rest s ≡ pos i
        → has_flag flags tfs_o_trunc ≡ true
        → AtStart s i)
      → Opening s rest flags (open_unsynchronized (path_of rest) flags s)
  open_unsynchronized-Opening = open_unsynchronized-by (find_in_dir-IsFile v rest)
