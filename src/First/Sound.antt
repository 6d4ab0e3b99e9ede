-- ===== src/First/Sound.antt =====
-- The direct blocks of a file of parte-1, and the allocation of one of them.
use tecnicofs.Base.{
  ℕ, ◌*◌, ◌≤◌, ◌<◌, ◌≡◌, ◌≢◌, ◌∙◌, ap, sym, subst, refl, arith, ◌⊎◌, inl, inr, ◌==◌, Bool-cases,
  Option-cases, none, some, ℤ, pos, minus_one, update,
}
use tecnicofs.Fs.State.{AllocationState, free, taken, block_size, data_blocks}
use tecnicofs.Fs.Blocks.{first_free}
use tecnicofs.Fs.Blocks.Search.{first_free-none, first_free-some}
use tecnicofs.First.State.{State, Inode, max_direct_blocks}
use tecnicofs.First.Blocks.{data_block_alloc, data_block_get}
use tecnicofs.First.Operations.Write.{Located, direct_block, set_direct}
use tecnicofs.First.Content.{size_of}

abbrev pub block_of : State → ℕ → ℕ → ℤ
block_of s i k = (s.inode_table i).i_data_block k

-- A block that is there and taken.
abbrev pub IsBlock : (ℕ → AllocationState) → ℤ → Type 0
IsBlock f z = (b : ℕ) × (z ≡ pos b) × (b < data_blocks) × (f b ≡ taken)

-- The node `n` of a file has no more than its direct blocks, which are its own among themselves;
-- those below its size are there.
pub record IsSound (n : Inode) (f : ℕ → AllocationState) : Type 0 where
  pub direct :
      (k : ℕ)
      → k < max_direct_blocks
      → (n.i_data_block k ≡ minus_one) ⊎ IsBlock f (n.i_data_block k)
  pub apart :
      (k l b : ℕ)
      → k < max_direct_blocks
      → l < max_direct_blocks
      → n.i_data_block k ≡ pos b
      → n.i_data_block l ≡ pos b
      → k ≡ l
  pub filled : (k : ℕ) → k * block_size < n.i_size → IsBlock f (n.i_data_block k)
  pub short : n.i_size ≤ max_direct_blocks * block_size

abbrev pub Sound : State → ℕ → Type 0
Sound s i = IsSound (s.inode_table i) s.free_blocks

-- The state `t`, behind a call of direct_block for the block `k`, which is then the block `b`.
pub record Grown (s t : State) (i k b : ℕ) : Type 0 where
  pub block : block_of t i k ≡ pos b
  pub bound : b < data_blocks
  pub sound : Sound t i
  pub memory : t.fs_data ≡ s.fs_data
  pub size : size_of t i ≡ size_of s i
  pub rest : (l : ℕ) → l ≢ k → block_of t i l ≡ block_of s i l
  pub old : (block_of s i k ≡ pos b) ⊎ ((block_of s i k ≡ minus_one) × (s.free_blocks b ≡ free))
  pub taken_kept : (c : ℕ) → s.free_blocks c ≡ taken → t.free_blocks c ≡ taken
  pub nodes : (j : ℕ) → j ≢ i → t.inode_table j ≡ s.inode_table j
  pub handles : t.open_file_table ≡ s.open_file_table
  pub file_locks : t.open_file_table_locks ≡ s.open_file_table_locks
  pub node_locks : t.inode_table_locks ≡ s.inode_table_locks

-- What direct_block does.
pub data Locating (s : State) (i k : ℕ) (r : Located) : Type 0 where
  no_block :
      (t : State)
      → r ≡ (none, t)
      → ((b : ℕ) → b < data_blocks → t.free_blocks b ≡ taken)
      → Locating s i k r
  got : (b : ℕ) (t : State) → r ≡ (some (b * block_size), t) → Grown s t i k b → Locating s i k r

pub pos≢minus_one : {b : ℕ} → pos b ≢ minus_one
pos≢minus_one e = cc

abbrev with_block : Inode → ℕ → ℕ → Inode
with_block n k b = record n { i_data_block = update n.i_data_block k (pos b) }

with_block-IsSound :
    {n : Inode} {f : ℕ → AllocationState} (k b : ℕ)
    → IsSound n f
    → k < max_direct_blocks
    → b < data_blocks
    → n.i_data_block k ≡ minus_one
    → f b ≡ free
    → IsSound (with_block n k b) (update f b taken)
with_block-IsSound {n} {f} k b v lt bound e g = record {
  direct = λ l ll. elim (Bool-cases (k == l)) [
    | inl eq ↦ inr (b, rw eq refl, bound, ground arith)
    | inr ne ↦ elim (v.direct l ll) [
      | inl none_yet ↦ inl (rw ne none_yet)
      | inr (c, p, q, t) ↦ inr (c, rw ne p, q, ground arith)
    ]
  ];
  apart =
      λ l l' c ll ll' p q. ground (arith, v.apart l l' c ll ll', v.direct l ll, v.direct l' ll');
  filled = λ l d. let (c, p, q, t) = v.filled l d in (c, ground arith, q, ground arith);
  short = v.short;
}

pub data_block_get-valid :
    (b : ℕ) → b < data_blocks → data_block_get (pos b) ≡ some (b * block_size)
unfolding data_block_get
data_block_get-valid b bound = ground (arith, bound)

abbrev allocated : State → ℕ → ℕ → ℕ → State
allocated s i k b = set_direct i k (pos b) (record s { free_blocks = update s.free_blocks b taken })

allocated-node :
    (s : State) (i k b : ℕ) → (allocated s i k b).inode_table i ≡ with_block (s.inode_table i) k b
allocated-node s i k b = ground arith

-- A block that is there is found, and nothing changes.
pub direct_block-found :
    (s : State) (i k b : ℕ)
    → block_of s i k ≡ pos b
    → b < data_blocks
    → direct_block i k s ≡ (some (b * block_size), s)
unfolding direct_block
direct_block-found s i k b e bound =
    rw (e, direct_block) (ap (λ o. (o, s)) (data_block_get-valid b bound))

module _ (s : State) (i k b : ℕ) (v : Sound s i) (lt : k < max_direct_blocks)
    (bound : b < data_blocks) where
  Grown-had : block_of s i k ≡ pos b → Grown s s i k b
  Grown-had e = record {
    block = e;
    bound = bound;
    sound = v;
    memory = refl;
    size = refl;
    rest = λ l ne. refl;
    old = inl e;
    taken_kept = λ c t. t;
    nodes = λ j ne. refl;
    handles = refl;
    file_locks = refl;
    node_locks = refl;
  }

  Grown-allocated :
      block_of s i k ≡ minus_one → s.free_blocks b ≡ free → Grown s (allocated s i k b) i k b
  Grown-allocated e f =
      let node = allocated-node s i k b in
      record {
        block = ap (λ n. n.i_data_block k) node ∙ ground arith;
        bound = bound;
        sound =
            subst (λ n. IsSound n (update s.free_blocks b taken)) (sym node)
              (with_block-IsSound k b v lt bound e f);
        memory = refl;
        size = ap (λ n. n.i_size) node;
        rest = λ l ne. ap (λ n. n.i_data_block l) node ∙ ground arith;
        old = inr (e, f);
        taken_kept = λ c t. ground arith;
        nodes = λ j ne. ground arith;
        handles = refl;
        file_locks = refl;
        node_locks = refl;
      }

  direct_block-new :
      block_of s i k ≡ minus_one
      → first_free data_blocks 0 s.free_blocks ≡ some b
      → direct_block i k s ≡ (some (b * block_size), allocated s i k b)
  unfolding direct_block data_block_alloc
  direct_block-new e q =
      rw (e, q, data_block_alloc, direct_block)
        (ap (λ o. (o, allocated s i k b)) (data_block_get-valid b bound))

module _ (s : State) (i k : ℕ) (v : Sound s i) (lt : k < max_direct_blocks) where
  direct_block-full :
      block_of s i k ≡ minus_one
      → first_free data_blocks 0 s.free_blocks ≡ none
      → direct_block i k s ≡ (none, set_direct i k minus_one s)
  unfolding direct_block data_block_alloc
  direct_block-full e q = rw (e, q, data_block_alloc, direct_block) refl

  -- A call either finds or makes the block, or all blocks are taken.
  pub direct_block-Locating : Locating s i k (direct_block i k s)
  direct_block-Locating = elim (v.direct k lt) [
    | inr (c, p, q, t) ↦ got c s (direct_block-found s i k c p q) (Grown-had s i k c v lt q p)
    | inl none_yet ↦ elim (Option-cases (first_free data_blocks 0 s.free_blocks)) [
      | inl full ↦
          no_block (set_direct i k minus_one s) (direct_block-full none_yet full)
            (λ c h. first_free-none s.free_blocks data_blocks 0 c full (omega arith) (omega arith))
      | inr (c, e) ↦
          let f = first_free-some s.free_blocks data_blocks 0 c e in
          got c (allocated s i k c) (direct_block-new s i k c v lt (omega arith) none_yet e)
            (Grown-allocated s i k c v lt (omega arith) none_yet f.2)
    ]
  ]
