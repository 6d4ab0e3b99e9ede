-- ===== src/First/ReadLoop.antt =====
-- The loop of tfs_read in parte-1/fs/operations.c.
use tecnicofs.Base.{
  ℕ, zero, suc, ◌+◌, ◌-◌, ◌*◌, ◌/◌, ◌%◌, ◌≤◌, ◌<◌, ◌≡◌, ◌∙◌, ap, ap₂, sym, refl, arith, Bool, true,
  false, Bool-cases, inl, inr, leb, some, ◌++◌,
}
use tecnicofs.Memory.{read_bytes}
use tecnicofs.Memory.Blocks.{read_bytes-add, read_bytes-cong}
use tecnicofs.Fs.State.{block_size, fs_data_size}
use tecnicofs.Fs.Operations.{size_mod}
use tecnicofs.First.State.{State, Outcome, done, ◌>>=◌}
use tecnicofs.First.Operations.Transfer.{fills_block, move_size, is_last}
use tecnicofs.First.Operations.Read.{
  Loaded, behind, read_move, read_turn, read_block, read_loop, set_offset,
}
use tecnicofs.First.Content.{size_of, offset_of, file_bytes, Stored, read_bytes-block}

set_offset_at :
    (h o o' : ℕ) (s : State) (x : ℕ)
    → (set_offset h o' (set_offset h o s)).open_file_table x ≡ (set_offset h o' s).open_file_table x
set_offset_at h o o' s x = ground arith

-- The last of two moves of an offset counts.
pub set_offset_twice :
    (h o o' : ℕ) (s : State) → set_offset h o' (set_offset h o s) ≡ set_offset h o' s
set_offset_twice h o o' s =
    ap (λ t. record s { open_file_table = t }) (λ j x. set_offset_at h o o' s x j)

-- One turn that moves `m` bytes within the block `k`: the test of the bounds passes.
turn-inside :
    (a o m : ℕ)
    → a + block_size ≤ fs_data_size
    → o % block_size + m ≤ block_size
    → leb (a + o % block_size + m) fs_data_size ≡ true
turn-inside a o m fit le = ground arith

pub Stored-set_offset : (h o : ℕ) (s : State) (i : ℕ) → Stored s i → Stored (set_offset h o s) i
unfolding read_block
Stored-set_offset h o s i st = st

pub file_bytes-set_offset :
    (h o : ℕ) (s : State) (i : ℕ) → file_bytes (set_offset h o s) i ≡ file_bytes s i
unfolding read_block
file_bytes-set_offset h o s i = refl

-- A turn that ends the loop, and one that does not.
module _ (next : ℕ → ℕ → State → Outcome Loaded) (h n count a o m : ℕ) (s : State) where
  read_move-last :
      leb (a + m) fs_data_size ≡ true
      → read_move next h n count s a o m true
        ≡ done (some (count + m, read_bytes s.fs_data a m), set_offset h ((o + m) % size_mod) s)
  unfolding read_move
  read_move-last inside = rw (inside, read_move) refl

  read_move-more :
      (r : Outcome Loaded)
      → leb (a + m) fs_data_size ≡ true
      → next (n - m) (count + m) (set_offset h ((o + m) % size_mod) s) ≡ r
      → read_move next h n count s a o m false
        ≡ (r >>= λ rest. done (behind (read_bytes s.fs_data a m) rest))
  unfolding read_move
  read_move-more r inside q = rw (inside, q, read_move) refl

-- The loop reads the `n` bytes from the offset on, if they lie before the end of the file and of the
-- last block.
pub read_loop-reads :
    (turns k end_block h i n count o : ℕ) (s : State)
    → offset_of s h ≡ o
    → Stored s i
    → k ≡ o / block_size
    → k + turns ≡ end_block
    → 0 < n
    → o + n ≤ end_block * block_size
    → o + n ≤ size_of s i
    → size_of s i < size_mod
    → read_loop turns k end_block h i n count s
      ≡ done (some (count + n, read_bytes (file_bytes s i) o n), set_offset h (o + n) s)
unfolding read_loop
read_loop-reads zero k end_block h i n count o s eo st ek et pos_n end_le le small =
    absurd (omega arith)
read_loop-reads (suc turns) k end_block h i n count o s eo st ek et pos_n end_le le small =
    let there = st k (omega arith) in
    let a : ℕ = there.0 in
    let next : ℕ → ℕ → State → Outcome Loaded =
      λ n' count' s'. read_loop turns (k + 1) end_block h i n' count' s' in
    let found : read_loop (suc turns) k end_block h i n count s
        ≡ read_turn next k end_block h n count s (some a) =
      ap (λ r. r >>= read_turn next k end_block h n count s) there.1 in
    let turn : (m : ℕ) (last : Bool)
        → move_size k end_block o n ≡ m
        → is_last k end_block o n ≡ last
        → read_turn next k end_block h n count s (some a)
          ≡ read_move next h n count s (a + o % block_size) o m last =
      λ m last em el.
        ap
          (λ x.
            read_move next h n count s (a + x % block_size) x (move_size k end_block x n)
              (is_last k end_block x n))
          eo
        ∙ ap₂ (λ x y. read_move next h n count s (a + o % block_size) o x y) em el in
    elim (Bool-cases (fills_block k end_block o n)) [
      | inl fills ↦
          let m : ℕ = block_size - o % block_size in
          let less : m < n = ground arith in
          let inside : leb (a + o % block_size + m) fs_data_size ≡ true =
            turn-inside a o m there.2 (omega arith) in
          let s' : State = set_offset h (o + m) s in
          let wrap : (o + m) % size_mod ≡ o + m = omega arith in
          let rest : read_loop turns (k + 1) end_block h i (n - m) (count + m) s'
              ≡ done (
                some (count + m + (n - m), read_bytes (file_bytes s' i) (o + m) (n - m)),
                set_offset h (o + m + (n - m)) s',
              ) =
            read_loop-reads turns (k + 1) end_block h i (n - m) (count + m) (o + m) s'
              (ground arith) (Stored-set_offset h (o + m) s i st) (omega arith) (omega arith)
              (omega arith) (omega arith) (omega arith) small in
          let bytes : read_bytes s.fs_data (a + o % block_size) m
                ++ read_bytes (file_bytes s' i) (o + m) (n - m)
              ≡ read_bytes (file_bytes s i) o n =
            ap₂ (λ xs ys. xs ++ ys) (read_bytes-block s i k a o m there.1 ek (omega arith))
              (ap (λ f. read_bytes f (o + m) (n - m)) (file_bytes-set_offset h (o + m) s i))
            ∙ sym (read_bytes-add (file_bytes s i) o m (n - m))
            ∙ read_bytes-cong (file_bytes s i) {a = o} refl (omega arith) in
          let counted : count + m + (n - m) ≡ count + n = omega arith in
          let state : set_offset h (o + m + (n - m)) s' ≡ set_offset h (o + n) s =
            set_offset_twice h (o + m) (o + m + (n - m)) s
            ∙ ap (λ x. set_offset h x s) (omega arith) in
          found
          ∙ turn m false (ground arith) (ground arith)
          ∙ read_move-more next h n count (a + o % block_size) o m s _ inside
              (ap (λ x. next (n - m) (count + m) (set_offset h x s)) wrap ∙ rest)
          ∙ (λ j. done (some (counted j, bytes j), state j))
      | inr not_fills ↦
          let fits : o % block_size + n ≤ block_size = ground arith in
          let short : leb n block_size ≡ true = ground arith in
          let wrap : (o + n) % size_mod ≡ o + n = omega arith in
          found
          ∙ turn n true (ground arith) (ground arith)
          ∙ read_move-last next h n count (a + o % block_size) o n s
              (turn-inside a o n there.2 fits)
          ∙ ap₂ (λ xs x. done (some (count + n, xs), set_offset h x s))
              (read_bytes-block s i k a o n there.1 ek fits) wrap
    ]
