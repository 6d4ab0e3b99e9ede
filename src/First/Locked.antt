-- ===== src/First/Locked.antt =====
-- The locks that tfs_read and tfs_write of parte-1/fs/operations.c take and give back.
use tecnicofs.Base.{
  ℕ, ◌<◌, ◌≡◌, ◌∙◌, ap, ap₂, sym, refl, arith, true, false, Bool-cases, inl, inr, ◌==◌, update, pos,
  some,
}
use tecnicofs.Fs.State.{max_open_files, inode_table_size}
use tecnicofs.First.State.{
  State, Outcome, done, ◌>>=◌, lock_file, lock_inode, unlock_file, unlock_inode,
}
use tecnicofs.First.Inodes.{inode_get}
use tecnicofs.First.OpenFiles.{get_open_file_entry}
use tecnicofs.First.Operations.Transfer.{with_node, with_file}
use tecnicofs.First.Content.{inumber_of}

-- The handle `h` stands for the node `i`, and the locks of both are free.
pub record Ready (s : State) (h i : ℕ) : Type 0 where
  pub handle : h < max_open_files
  pub number : inumber_of s h ≡ pos i
  pub node : i < inode_table_size
  pub file_free : s.open_file_table_locks h ≡ false
  pub node_free : s.inode_table_locks i ≡ false

-- The state with both locks held.
abbrev pub with_locks : ℕ → ℕ → State → State
with_locks h i s = record s {
  open_file_table_locks = update s.open_file_table_locks h true;
  inode_table_locks = update s.inode_table_locks i true;
}

abbrev pub without_locks : ℕ → ℕ → State → State
without_locks h i s = unlock_inode i (unlock_file h s)

update_back_at :
    {A : Type 0} (f : ℕ → A) (h : ℕ) (a b : A) (x : ℕ) → f h ≡ b → update (update f h a) h b x ≡ f x
update_back_at f h a b x e = ground arith

-- An entry that gets its old value back.
pub update_back :
    {A : Type 0} (f : ℕ → A) (h : ℕ) (a b : A) → f h ≡ b → update (update f h a) h b ≡ f
update_back f h a b e j x = update_back_at f h a b x e j

update_same_at : {A : Type 0} (f : ℕ → A) (h x : ℕ) → update f h (f h) x ≡ f x
update_same_at f h x = elim (Bool-cases (h == x)) [
  | inl e ↦ let q : h ≡ x = ground arith in rw (e, q) refl
  | inr e ↦ rw e refl
]

-- An entry that gets the value it has.
pub update_same : {A : Type 0} (f : ℕ → A) (h : ℕ) → update f h (f h) ≡ f
update_same f h j x = update_same_at f h x j

-- Behind the unlocking the locks are as before the locking, whatever else has changed.
pub without_locks-with_locks :
    (h i : ℕ) (s t : State)
    → s.open_file_table_locks h ≡ false
    → s.inode_table_locks i ≡ false
    → t.open_file_table_locks ≡ s.open_file_table_locks
    → t.inode_table_locks ≡ s.inode_table_locks
    → without_locks h i (record t {
      open_file_table_locks = update s.open_file_table_locks h true;
      inode_table_locks = update s.inode_table_locks i true;
    })
      ≡ t
without_locks-with_locks h i s t free_file free_node ef en =
    ap₂ (λ f g. record t { open_file_table_locks = f; inode_table_locks = g })
      (update_back s.open_file_table_locks h true false free_file ∙ sym ef)
      (update_back s.inode_table_locks i true false free_node ∙ sym en)

pub get_open_file_entry-Ready :
    {s : State} {h i : ℕ} → Ready s h i → get_open_file_entry (pos h) ≡ some h
unfolding get_open_file_entry
get_open_file_entry-Ready r = ground (arith, r.handle)

pub inode_get-Ready : {s : State} {h i : ℕ} → Ready s h i → inode_get (inumber_of s h) ≡ some i
unfolding inode_get
inode_get-Ready r = rw r.number (ground (arith, r.node))

pub lock_file-Ready :
    {s : State} {h i : ℕ}
    → Ready s h i
    → lock_file h s
      ≡ done (record s { open_file_table_locks = update s.open_file_table_locks h true })
unfolding lock_file
lock_file-Ready r = rw r.file_free refl

pub lock_inode-Ready :
    {s : State} {h i : ℕ}
    → Ready s h i
    → lock_inode i (record s { open_file_table_locks = update s.open_file_table_locks h true })
      ≡ done (with_locks h i s)
unfolding lock_inode
lock_inode-Ready r = rw r.node_free refl

with_node-Ready :
    {B : Type 0} (fail : State → B) (body : ℕ → ℕ → State → Outcome B) {s : State} {h i : ℕ}
    → Ready s h i
    → with_node fail body h
        (record s { open_file_table_locks = update s.open_file_table_locks h true })
      ≡ body h i (with_locks h i s)
unfolding with_node
with_node-Ready fail body {s} {h} {i} r =
    rw (inode_get-Ready r, with_node) (ap (λ x. x >>= body h i) (lock_inode-Ready r))

-- With a handle that is ready, the body runs with both locks held.
pub with_file-Ready :
    {B : Type 0} (fail : State → B) (body : ℕ → ℕ → State → Outcome B) {s : State} {h i : ℕ}
    → Ready s h i
    → with_file fail body (pos h) s ≡ body h i (with_locks h i s)
unfolding with_file
with_file-Ready fail body {s} {h} {i} r =
    rw (get_open_file_entry-Ready r, with_file)
      (ap (λ x. x >>= with_node fail body h) (lock_file-Ready r) ∙ with_node-Ready fail body r)
