-- ===== src/Fs/Create.antt =====
-- inode_create for files and inode_delete of parte-2/fs/state.c.
use tecnicofs.Base.{ℕ, ◌<◌, ◌≡◌, refl, arith, Option-cases, inl, inr, ℤ, pos, minus_one}
use tecnicofs.Fs.State.{State, Inode, t_file, free, taken, inode_table_size}
use tecnicofs.Fs.Blocks.{first_free}
use tecnicofs.Fs.Blocks.Search.{first_free-none, first_free-some, first_free-least}
use tecnicofs.Fs.Inodes.{set_inode, set_freeinode, init_inode, inode_create}
use tecnicofs.Fs.Invariant.{
  InUse, IsValid, block-valid, block-taken, block-alone, root_entry-cong, entries-transfer,
}
use tecnicofs.Fs.Content.{content, content-cong}

abbrev new_file : Inode
new_file = record { i_node_type = t_file; i_size = 0; i_data_block = minus_one }

-- The state after the file `i` was made.
abbrev pub created : State → ℕ → State
created s i =
    set_inode
      (set_inode (set_freeinode s i taken) i (record (s.inode_table i) { i_node_type = t_file })) i
      new_file

-- The state after it was made and deleted again.
abbrev pub dropped : State → ℕ → State
dropped s i = set_freeinode (created s i) i free

pub data Creating (s : State) (r : ℤ × State) : Type 0 where
  all_used : ((i : ℕ) → i < inode_table_size → InUse s i) → r ≡ (minus_one, s) → Creating s r
  creates :
      (i : ℕ)
      → i < inode_table_size
      → s.freeinode_ts i ≡ free
      → ((j : ℕ) → j < i → InUse s j)
      → r ≡ (pos i, created s i)
      → Creating s r

-- Making a file takes the free i-node of least number, gives it the size 0 and no block, and
-- returns its number; or it returns -1 and changes nothing, and then all i-nodes are in use.
pub inode_create-Creating : (s : State) → Creating s (inode_create t_file s)
unfolding inode_create init_inode
inode_create-Creating s = elim (Option-cases (first_free inode_table_size 0 s.freeinode_ts)) [
  | inl e ↦
      all_used
        (λ i lt. first_free-none s.freeinode_ts inode_table_size 0 i e (omega arith) (omega arith))
        (rw (e, inode_create))
  | inr (i, e) ↦
      let f = first_free-some s.freeinode_ts inode_table_size 0 i e in
      creates i (omega arith) f.2
        (λ j lt. first_free-least s.freeinode_ts inode_table_size 0 i j e (omega arith) lt)
        (rw (e, inode_create, init_inode))
]

module _ {s : State} (i : ℕ) (v : IsValid s) (unused : s.freeinode_ts i ≡ free) where
  -- The root directory is in use.
  pub not_root : 0 < i
  not_root = ground (arith, v.root_in_use)

  pub created-IsValid : IsValid (created s i)
  created-IsValid = record {
    root_in_use = ground (arith, v.root_in_use);
    root_type = ground (arith, v.root_type, not_root);
    root_size = ground (arith, v.root_size, not_root);
    fits = λ j u. ground (arith, v.fits j);
    owns = λ j u d. (
      ground (arith, block-valid v j),
      ground (arith, block-taken v j),
      λ j' u' d' q. ground (arith, block-alone v j j'),
    );
    opened = λ h l t. ground (arith, v.opened h l t);
    counted = v.counted;
    entries =
        entries-transfer s (created s i) v
          (λ k l. root_entry-cong s (created s i) k (ground (arith, not_root)) refl)
          (λ j u. ground arith);
  }

  pub dropped-IsValid : IsValid (dropped s i)
  dropped-IsValid = record {
    root_in_use = ground (arith, v.root_in_use, not_root);
    root_type = ground (arith, v.root_type, not_root);
    root_size = ground (arith, v.root_size, not_root);
    fits = λ j u. ground (arith, v.fits j);
    owns = λ j u d. (
      ground (arith, block-valid v j),
      ground (arith, block-taken v j),
      λ j' u' d' q. ground (arith, block-alone v j j'),
    );
    opened = λ h l t. ground (arith, v.opened h l t);
    counted = v.counted;
    entries =
        entries-transfer s (dropped s i) v
          (λ k l. root_entry-cong s (dropped s i) k (ground (arith, not_root)) refl)
          (λ j u. ground arith);
  }

  -- No file in use changes.
  pub content-created : (j : ℕ) → InUse s j → content (created s i) j ≡ content s j
  content-created j u =
      content-cong s (created s i) j (ground arith) (λ d. ground arith) (λ x _ _. refl)

  pub content-dropped : (j : ℕ) → InUse s j → content (dropped s i) j ≡ content s j
  content-dropped j u =
      content-cong s (dropped s i) j (ground arith) (λ d. ground arith) (λ x _ _. refl)
