-- ===== src/First/Sample.antt =====
-- A state of parte-1 with one file, for the runs at concrete inputs.
use tecnicofs.Base.{
  pos_part, ℕ, ◌*◌, ◌%◌, ◌<◌, ◌≡◌, ap, sym, refl, arith, ◌⊎◌, inl, inr, true, Bool-cases, ◌==◌, ltb,
  if◌then◌else◌, [], ◌∷◌, length, pos, minus_one, ◌≤◌,
}
use tecnicofs.Memory.{Memory, strncmp_eq, load_int}
use tecnicofs.Fs.State.{free, taken, t_file, t_directory, block_size}
use tecnicofs.Fs.Dir.{find_from, entry_matches}
use tecnicofs.First.State.{State, Inode, done}
use tecnicofs.First.Inodes.{boot}
use tecnicofs.First.Blocks.{data_block_get}
use tecnicofs.First.Dir.{find_in_dir}
use tecnicofs.First.Operations.Copy.{Outside}
use tecnicofs.First.Sound.{IsBlock, Sound, block_of, pos≢minus_one}
use tecnicofs.First.Locked.{Ready}
use tecnicofs.First.Opens.{Unlocked}
use tecnicofs.First.CopyLoop.{Works}

-- The node of the root, and that of a file of `n` bytes with the blocks 1 and 3.
abbrev root_node : Inode
root_node = record {
  i_node_type = t_directory;
  i_size = 1024;
  i_data_block = λ k. if k == 0 then pos 0 else minus_one;
  i_indirect_data_block = minus_one;
}

abbrev file_node : ℕ → Inode
file_node n = record {
  i_node_type = t_file;
  i_size = n;
  i_data_block = λ k. if k == 0 then pos 1 else if k == 1 then pos 3 else minus_one;
  i_indirect_data_block = minus_one;
}

-- The root has one entry, for the file of the node 1.
abbrev bytes : Memory
bytes x = if x == 0 then 97 else if x == 40 then 1 else if ltb x 1024 then 0 else x % 256

-- Every handle stands for the file, at the offset 1030.
abbrev pub sized : ℕ → State
sized n = record boot {
  inode_table = λ i. if i == 0 then root_node else file_node n;
  free_blocks = λ b. if ltb b 4 then taken else free;
  fs_data = bytes;
  open_file_table = λ h. record { of_inumber = pos 1; of_offset = 1030 };
}

abbrev pub sample : State
sample = sized 1500

pub sample-Ready : (h : ℕ) → h < 20 → Ready sample h 1
sample-Ready h lt = record {
  handle = lt;
  number = refl;
  node = omega arith;
  file_free = refl;
  node_free = refl;
}

sample-direct :
    (k : ℕ)
    → (block_of (sized 0) 1 k ≡ minus_one) ⊎ IsBlock (sized 0).free_blocks (block_of (sized 0) 1 k)
sample-direct k = elim (Bool-cases (k == 0)) [
  | inl e ↦ rw e (inr (1, refl, omega arith, refl))
  | inr e ↦ elim (Bool-cases (k == 1)) [
    | inl f ↦ rw (e, f) (inr (3, refl, omega arith, refl))
    | inr f ↦ rw (e, f) (inl refl)
  ]
]

sample-filled :
    (n k : ℕ)
    → n ≤ 2048
    → k * block_size < n
    → IsBlock (sized 0).free_blocks (block_of (sized 0) 1 k)
sample-filled n k le lt = elim (Bool-cases (k == 0)) [
  | inl e ↦ rw e (1, refl, omega arith, refl)
  | inr e ↦ let f : (k == 1) ≡ true = ground arith in rw (e, f) (3, refl, omega arith, refl)
]

-- The blocks of the file are two.
sample-blocks :
    (k b : ℕ) → block_of (sized 0) 1 k ≡ pos b → ((k ≡ 0) × (b ≡ 1)) ⊎ ((k ≡ 1) × (b ≡ 3))
sample-blocks k b = elim (Bool-cases (k == 0)) [
  | inl e ↦ rw e λ p. inl (ground arith, sym (ap pos_part p))
  | inr e ↦ elim (Bool-cases (k == 1)) [
    | inl f ↦ rw (e, f) λ p. inr (ground arith, sym (ap pos_part p))
    | inr f ↦ rw (e, f) λ p. absurd (pos≢minus_one (sym p))
  ]
]

sample-apart : (k l b : ℕ) → block_of (sized 0) 1 k ≡ pos b → block_of (sized 0) 1 l ≡ pos b → k ≡ l
sample-apart k l b p q =
    let first = sample-blocks k b p in
    let second = sample-blocks l b q in ground (arith, first, second)

pub sized-Sound : (n : ℕ) → n ≤ 2048 → Sound (sized n) 1
sized-Sound n le = record {
  direct = λ k lt. sample-direct k;
  apart = λ k l b lk ll. sample-apart k l b;
  filled = λ k lt. sample-filled n k le lt;
  short = omega arith;
}

pub sample-Sound : Sound sample 1
sample-Sound = sized-Sound 1500 (omega arith)

pub sized-Unlocked : (n : ℕ) → Unlocked (sized n)
sized-Unlocked n = record { nodes = λ i. refl; files = λ h. refl; opening = refl }

abbrev pub out : Outside
out = record { opened = true; allocated = true; fwrite = λ bytes. length bytes }

pub out-Works : Works out
out-Works = record { opens = refl; allocates = refl; writes = λ bytes. refl }

pub found : (n : ℕ) → find_in_dir (pos 0) (97 ∷ []) (sized n) ≡ done (pos 1)
unfolding find_in_dir data_block_get find_from entry_matches load_int strncmp_eq
found n = refl
