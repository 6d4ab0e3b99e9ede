-- ===== src/First/Truncation.antt =====
-- The truncation of tfs_open in parte-1/fs/operations.c, for a file of whole blocks.
use tecnicofs.Base.{
  ℕ, zero, suc, ◌+◌, ◌*◌, ◌≤◌, ◌<◌, ◌≡◌, ◌≢◌, ◌∙◌, ap, refl, arith, true, Bool-cases, ◌==◌, ltb,
  inl, inr, some, List, length, ℤ, pos, minus_one, update,
}
use tecnicofs.Fs.State.{free, block_size, data_blocks, inode_table_size}
use tecnicofs.Fs.Operations.{has_flag, tfs_o_trunc, valid_pathname}
use tecnicofs.Fs.Blocks.{valid_block_number}
use tecnicofs.Fs.Open.{path_of}
use tecnicofs.First.State.{State, undefined, done, ◌>>=◌, set_inode, lock_open, max_direct_blocks}
use tecnicofs.First.Blocks.{data_block_free}
use tecnicofs.First.Inodes.{inode_get}
use tecnicofs.First.Dir.{find_in_dir}
use tecnicofs.First.Operations.{
  free_blocks_from, loop_limit, truncated_blocks, truncate_blocks, truncate, open_node,
  open_existing, open_found, tfs_lookup, tfs_open,
}
use tecnicofs.First.Content.{size_of}
use tecnicofs.First.Sound.{Sound, block_of}
use tecnicofs.First.Opens.{Unlocked, opening, lookup-opening, lock_node-opening}

-- The state behind the freeing of the direct block `j`, which is `b`.
abbrev freed : State → ℕ → ℕ → ℕ → State
freed s i j b =
    let inode = s.inode_table i in
    set_inode i (record inode { i_data_block = update inode.i_data_block j minus_one })
      (record s { free_blocks = update s.free_blocks b free })

data_block_free-valid :
    (s : State) (b : ℕ)
    → b < data_blocks
    → data_block_free (pos b) s
      ≡ done (pos 0, record s { free_blocks = update s.free_blocks b free })
unfolding data_block_free
data_block_free-valid s b bound =
    let ok : valid_block_number (pos b) ≡ true = ground arith in rw (ok, data_block_free) refl

data_block_free-missing : (s : State) → data_block_free minus_one s ≡ undefined
unfolding data_block_free
data_block_free-missing s = refl

-- The loop meets the block `k`, which is not there.
free_blocks_from-missing :
    (n j k i : ℕ) (s : State)
    → j ≤ k
    → k < j + n
    → ((l : ℕ) → j ≤ l → l < k → (b : ℕ) × (block_of s i l ≡ pos b) × (b < data_blocks))
    → block_of s i k ≡ minus_one
    → free_blocks_from n j i s ≡ undefined
unfolding free_blocks_from
free_blocks_from-missing zero j k i s le lt there e = absurd (omega arith)
free_blocks_from-missing (suc n) j k i s le lt there e = elim (Bool-cases (j == k)) [
  | inl same ↦
      let here : j ≡ k = ground arith in
      let q : data_block_free (block_of s i j) s ≡ undefined =
        ap (λ z. data_block_free z s) (ap (λ l. block_of s i l) here ∙ e)
        ∙ data_block_free-missing s in
      rw (q, free_blocks_from) refl
  | inr other ↦
      let ne : j ≢ k = ground arith in
      let (b, p, bound) = there j (omega arith) (omega arith) in
      let q = ap (λ z. data_block_free z s) p ∙ data_block_free-valid s b bound in
      rw (q, free_blocks_from)
        (free_blocks_from-missing n (j + 1) k i (freed s i j b) (omega arith) (omega arith)
          (λ l lo hi. let (c, r, d) = there l (omega arith) hi in (c, ground (arith, r), d))
          (ground (arith, e)))
]

truncate_blocks-whole :
    (s : State) (i k : ℕ)
    → Sound s i
    → size_of s i ≡ k * block_size
    → 0 < k
    → k < max_direct_blocks
    → block_of s i k ≡ minus_one
    → truncate_blocks i s ≡ undefined
unfolding truncate_blocks
truncate_blocks-whole s i k v size some_blocks lt none_there =
    let number : loop_limit (truncated_blocks (size_of s i)) ≡ k + 1 =
      ap (λ z. loop_limit (truncated_blocks z)) size ∙ ground arith in
    let missing : free_blocks_from (k + 1) 0 i s ≡ undefined =
      free_blocks_from-missing (k + 1) 0 k i s (omega arith) (omega arith)
        (λ l lo hi. let (b, e, bound, t) = v.filled l (omega arith) in (b, e, bound)) none_there in
    let q = ap (λ n. free_blocks_from n 0 i s) number ∙ missing in rw (q, truncate_blocks) refl

open_node-undefined :
    (s : State) (flags : ℤ) (i : ℕ)
    → i < inode_table_size
    → has_flag flags tfs_o_trunc ≡ true
    → 0 < size_of s i
    → truncate_blocks i s ≡ undefined
    → open_node (pos i) flags s ≡ undefined
unfolding open_node truncate inode_get
open_node-undefined s flags i lt trunc some_bytes e =
    let ok : inode_get (pos i) ≡ some i = ground arith in
    let nonempty : ltb 0 (size_of s i) ≡ true = ground arith in
    rw (ok, trunc, nonempty, e, truncate, open_node) refl

-- In parte-1, when no lock is held, an open with O_TRUNC of a sound file of k whole blocks, from 1
-- to 9, whose block k is not there, is undefined behaviour: the truncation also frees the block k,
-- and so takes a lock in front of the table of locks.
pub tfs_open-whole_blocks :
    (s : State) (rest : List ℕ) (flags : ℤ) (i k : ℕ)
    → Unlocked s
    → 0 < length rest
    → find_in_dir (pos 0) rest s ≡ done (pos i)
    → i < inode_table_size
    → has_flag flags tfs_o_trunc ≡ true
    → Sound s i
    → size_of s i ≡ k * block_size
    → 0 < k
    → k < max_direct_blocks
    → block_of s i k ≡ minus_one
    → tfs_open (path_of rest) flags s ≡ undefined
unfolding tfs_open lock_open open_found open_existing open_node truncate inode_get
tfs_open-whole_blocks s rest flags i k u long found node trunc v size some_blocks lt none_there =
    let t : State = record s {
      open_file_lock = true;
      inode_table_locks = update s.inode_table_locks i true;
    } in
    let ok : valid_pathname (path_of rest) ≡ true = ground arith in
    rw (ok, tfs_open)
      (ap (λ x. x >>= λ s1. tfs_lookup (path_of rest) s1 >>= open_found rest flags s1)
          {x = lock_open s} {y = done (opening s)} (rw u.opening refl)
        ∙ ap (λ x. x >>= open_found rest flags (opening s)) (lookup-opening s rest _ long found)
        ∙ ap (λ x. x >>= open_node (pos i) flags) (lock_node-opening s i u)
        ∙ open_node-undefined t flags i node trunc (omega arith)
            (truncate_blocks-whole t i k v size some_blocks lt none_there))
