-- ===== src/Fs/Root.antt =====
-- add_dir_entry and find_in_dir of parte-2/fs/state.c on the root directory of a valid state.
use tecnicofs.Base.{
  ℕ, ◌+◌, ◌-◌, take, ◌≤◌, ◌<◌, ◌≡◌, ◌≢◌, refl, arith, ◌∙◌, sym, subst, some, none, true, false, ◌⊎◌,
  inl, inr, List, length, ◌==◌, Option, ℤ, pos, negsuc, minus_one, is_minus_one, IsInt, Bool-cases,
}
use native.Mathlib.Decide.{ℕ_discrete}
use tecnicofs.Memory.{Memory}
use tecnicofs.Memory.Strings.{IsString, Holds}
use tecnicofs.Fs.State.{State, block_size, max_dir_entries, max_file_name, dir_entry_size}
use tecnicofs.Fs.Blocks.{valid_inumber}
use tecnicofs.Fs.Dir.{d_name_at, fill_entry, add_entry_from, find_from, add_dir_entry, find_in_dir}
use tecnicofs.Fs.Dir.Entries.{
  answers, fill_entry-Holds, load_int-fill_entry_self, fill_entry_out, load_int-fill_entry_ne,
}
use tecnicofs.Fs.Dir.Lookup.{
  IsEmpty, Adds, fills, no_room, add_entry_from-Adds, find_from-result, find_from-fill_entry,
  find_from-fill_entry_other,
}
use tecnicofs.Fs.Pointers.{data_block_get-valid}
use tecnicofs.Fs.Invariant.{
  InUse, IsFile, IsValid, block_at, block_of, root_entry, size_of, root-owns,
}
use tecnicofs.Fs.Content.{content, content-cong}
use tecnicofs.Fs.Invariant.Steps.{with_data}

module _ {s : State} (v : IsValid s) where
  -- The loop runs over the block of the root directory.
  pub find_in_dir-root :
      (t : List ℕ)
      → find_in_dir (pos 0) t s ≡ find_from max_dir_entries 0 (block_at s 0) t s.fs_data
  unfolding find_in_dir
  find_in_dir-root t = rw (
    v.root_type,
    data_block_get-valid (s.inode_table 0).i_data_block (root-owns v).0,
    find_in_dir,
  )

  pub add_dir_entry-root :
      (z : ℤ) (name : List ℕ) (r : Option Memory)
      → valid_inumber z ≡ true
      → (length name == 0) ≡ false
      → add_entry_from max_dir_entries 0 (block_at s 0) z name s.fs_data ≡ r
      → add_dir_entry (pos 0) z name s
        ≡ elim r [ none ↦ (minus_one, s) | some m ↦ (pos 0, with_data s m) ]
  unfolding add_dir_entry
  add_dir_entry-root z name r ok nonempty e = rw (
    v.root_type,
    ok,
    nonempty,
    data_block_get-valid (s.inode_table 0).i_data_block (root-owns v).0,
    e,
    add_dir_entry,
  )

-- A search in the root directory gives -1 or the number of a file.
pub find_in_dir-IsFile :
    {s : State} (v : IsValid s) (t : List ℕ)
    → (find_in_dir (pos 0) t s ≡ minus_one) ⊎ IsFile s (find_in_dir (pos 0) t s)
find_in_dir-IsFile {s} v t = elim (find_from-result (block_at s 0) t max_dir_entries 0 s.fs_data) [
  | inl e ↦ inl (find_in_dir-root v t ∙ e)
  | inr (k, lt, e, ok) ↦ elim (v.entries k (omega arith)) [
    | inl q ↦ absurd (ground arith)
    | inr f ↦ inr (rw (find_in_dir-root v t ∙ e) f)
  ]
]

-- The state after the entry `j` was filled.
abbrev pub entered : State → ℕ → ℤ → List ℕ → State
entered s j z name = with_data s (fill_entry s.fs_data (block_at s 0) j z name)

pos≢minus_one : {i : ℕ} → pos i ≢ minus_one
pos≢minus_one e = cc

-- A name that is found is that of a file.
pub found-IsFile :
    {s : State} (name : List ℕ) (i : ℕ)
    → IsValid s
    → find_in_dir (pos 0) name s ≡ pos i
    → IsFile s (pos i)
found-IsFile {s} name i v e = elim (find_in_dir-IsFile v name) [
  | inl q ↦ absurd (pos≢minus_one (sym e ∙ q))
  | inr f ↦ subst (IsFile s) e f
]

-- The entry `j` of the root directory holds the number and the first 39 bytes of the name with zeros
-- behind them, and no other byte and no table has changed.
pub record Filled (s : State) (j : ℕ) (z : ℤ) (name : List ℕ) (t : State) : Type 0 where
  pub number : root_entry t j ≡ z
  pub name_bytes :
      Holds t.fs_data (d_name_at (block_at s 0) j) (take (max_file_name - 1) name) max_file_name
  pub bytes_kept :
      (x : ℕ)
      → (x < d_name_at (block_at s 0) j) ⊎ (d_name_at (block_at s 0) j + dir_entry_size ≤ x)
      → t.fs_data x ≡ s.fs_data x
  pub tables_kept : t ≡ record s { fs_data = t.fs_data }

entered-Filled :
    (s : State) (j : ℕ) (z : ℤ) (name : List ℕ) → IsInt z → Filled s j z name (entered s j z name)
entered-Filled s j z name h = record {
  number = load_int-fill_entry_self s.fs_data (block_at s 0) j z name h;
  name_bytes = fill_entry-Holds s.fs_data (block_at s 0) j z name;
  bytes_kept = fill_entry_out s.fs_data (block_at s 0) j z name;
  tables_kept = refl;
}

-- What add_dir_entry does in the root directory with the number of a file.
pub data Entering (s : State) (z : ℤ) (name : List ℕ) (r : ℤ × State) : Type 0 where
  no_name : length name ≡ 0 → r ≡ (minus_one, s) → Entering s z name r
  dir_full :
      0 < length name
      → ((k : ℕ) → k < max_dir_entries → is_minus_one (root_entry s k) ≡ false)
      → r ≡ (minus_one, s)
      → Entering s z name r
  enters :
      (j : ℕ)
      → 0 < length name
      → j < max_dir_entries
      → IsEmpty s.fs_data (block_at s 0) j
      → Filled s j z name (entered s j z name)
      → r ≡ (pos 0, entered s j z name)
      → Entering s z name r

valid-IsInt : (z : ℤ) → valid_inumber z ≡ true → IsInt z × (is_minus_one z ≡ false)
valid-IsInt (pos n) ok = ground arith
valid-IsInt (negsuc n) ok = cc

module _ {s : State} (v : IsValid s) (z : ℤ) (name : List ℕ) where
  add_dir_entry-by :
      {r : Option Memory}
      → valid_inumber z ≡ true
      → (length name == 0) ≡ false
      → add_entry_from max_dir_entries 0 (block_at s 0) z name s.fs_data ≡ r
      → Adds max_dir_entries 0 (block_at s 0) z name s.fs_data r
      → Entering s z name (add_dir_entry (pos 0) z name s)
  add_dir_entry-by ok nonempty e (fills j lo hi empty q) =
      enters j (ground arith) (omega arith) empty (entered-Filled s j z name (valid-IsInt z ok).0)
        (add_dir_entry-root v z name _ ok nonempty (e ∙ q))
  add_dir_entry-by ok nonempty e (no_room all q) =
      dir_full (ground arith) (λ k lt. all k (omega arith) (omega arith))
        (add_dir_entry-root v z name _ ok nonempty (e ∙ q))

  -- In a valid state, adding an entry for a valid number to the root directory returns 0 for a
  -- name that is not empty, and fills an empty entry: the entry then has the number, and the first
  -- 39 bytes of the name with zeros behind them, and no other byte and no table changes. Or it
  -- returns -1 and changes nothing, and then the name is empty, or it is not and no entry is
  -- empty.
  pub add_dir_entry-Entering :
      valid_inumber z ≡ true → Entering s z name (add_dir_entry (pos 0) z name s)
  unfolding add_dir_entry
  add_dir_entry-Entering ok = elim (Bool-cases (length name == 0)) [
    | inl e ↦ no_name (ground arith) (rw (v.root_type, ok, e, add_dir_entry))
    | inr ne ↦
        add_dir_entry-by ok ne refl
          (add_entry_from-Adds max_dir_entries 0 (block_at s 0) z name s.fs_data)
  ]

  module _ (j : ℕ) (f : IsFile s z) where
    entered-entry :
        (k : ℕ)
        → k < max_dir_entries
        → (root_entry (entered s j z name) k ≡ minus_one)
          ⊎ IsFile s (root_entry (entered s j z name) k)
    entered-entry k lt = elim (ℕ_discrete k j) [
      | yes e ↦
          let q =
            load_int-fill_entry_self s.fs_data (block_at s 0) j z name (valid-IsInt z f.0).0 in
          inr (rw (e, q) f)
      | no ne ↦ rw (load_int-fill_entry_ne s.fs_data (block_at s 0) j z name k ne) (v.entries k lt)
    ]

    pub entered-IsValid : IsValid (entered s j z name)
    entered-IsValid = record {
      root_in_use = v.root_in_use;
      root_type = v.root_type;
      root_size = v.root_size;
      fits = v.fits;
      owns = v.owns;
      opened = v.opened;
      counted = v.counted;
      entries = entered-entry;
    }

    pub content-entered :
        (i : ℕ)
        → j < max_dir_entries
        → InUse s i
        → i ≢ 0
        → content (entered s j z name) i ≡ content s i
    content-entered i lt u ne =
        content-cong s (entered s j z name) i refl (λ _. refl)
          (λ x p q.
            let far : block_of s i ≢ block_of s 0 =
              λ (e : block_of s i ≡ block_of s 0). ne ((root-owns v).2 i u (omega arith) e) in
            let fit : size_of s i ≤ block_size = v.fits i u in
            fill_entry_out s.fs_data (block_at s 0) j z name x (omega arith))

    -- In a valid state, after an entry with a name and the number of a file was filled in the root
    -- directory, a name that was not found before and that the stored name answers is found, with
    -- the number of that file.
    pub find_in_dir-entered :
        (t : List ℕ)
        → j < max_dir_entries
        → IsString name
        → IsString t
        → answers name t ≡ true
        → find_in_dir (pos 0) t s ≡ minus_one
        → find_in_dir (pos 0) t (entered s j z name) ≡ z
    find_in_dir-entered t lt hs ht yes_it none_yet =
        find_in_dir-root entered-IsValid t
        ∙ find_from-fill_entry max_dir_entries 0 (block_at s 0) j z name t s.fs_data (omega arith)
            (omega arith) (valid-IsInt z f.0).0 (valid-IsInt z f.0).1 hs ht yes_it
            (sym (find_in_dir-root v t) ∙ none_yet)

    -- In a valid state, after an empty entry of the root directory was filled with a name and the
    -- number of a file, each name that the stored name does not answer is found, or not, as
    -- before.
    pub find_in_dir-entered_other :
        (t : List ℕ)
        → IsEmpty s.fs_data (block_at s 0) j
        → IsString name
        → IsString t
        → answers name t ≡ false
        → find_in_dir (pos 0) t (entered s j z name) ≡ find_in_dir (pos 0) t s
    find_in_dir-entered_other t empty hs ht not_it =
        find_in_dir-root entered-IsValid t
        ∙ find_from-fill_entry_other max_dir_entries 0 (block_at s 0) j z name t s.fs_data empty
            (valid-IsInt z f.0).0 (valid-IsInt z f.0).1 hs ht not_it
        ∙ sym (find_in_dir-root v t)
