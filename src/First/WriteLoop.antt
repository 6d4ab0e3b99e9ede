-- ===== src/First/WriteLoop.antt =====
-- What tfs_write of parte-1/fs/operations.c does in its loop, within the direct blocks of a file.
use tecnicofs.Base.{
  ℕ, zero, suc, ◌+◌, ◌-◌, ◌*◌, ◌/◌, ◌%◌, ◌≤◌, ◌<◌, ◌≡◌, ◌∙◌, ap, ap₂, subst, refl, arith, inl, inr,
  Bool, true, false, ◌&&◌, leb, lt→ltb, Bool-cases, List, length, length-drop, drop, none, some,
}
use tecnicofs.Fs.State.{taken, block_size, data_blocks, fs_data_size}
use tecnicofs.First.State.{State, Outcome, done, ◌>>=◌, max_direct_blocks}
use tecnicofs.First.Operations.Transfer.{fills_block, move_size, is_last}
use tecnicofs.First.Operations.Write.{
  Located, Written, put, direct_block, write_block, write_move, write_turn, write_loop,
}
use tecnicofs.First.Content.{size_of, offset_of}
use tecnicofs.First.Sound.{Sound, Grown, no_block, got, direct_block-Locating}
use tecnicofs.First.Joins.{Wrote-trans}
use tecnicofs.First.Puts.{after-Wrote}
use tecnicofs.First.Written.{Wrote}

-- What the loop of tfs_write leaves.
pub data Looping (s : State) (h i o n : ℕ) (buffer : List ℕ) (written : ℕ) (r : Outcome Written)
    : Type 0 where
  wrote :
      (t : State)
      → r ≡ done (some (written + n), t)
      → Wrote s t h i o n buffer
      → Looping s h i o n buffer written r
  disk_full :
      (t : State)
      → r ≡ done (none, t)
      → ((b : ℕ) → b < data_blocks → t.free_blocks b ≡ taken)
      → Looping s h i o n buffer written r

Looping-eq :
    {s : State} {h i o n : ℕ} {buffer : List ℕ} {written : ℕ} {r r' : Outcome Written}
    → r' ≡ r
    → Looping s h i o n buffer written r
    → Looping s h i o n buffer written r'
Looping-eq e (wrote t q w) = wrote t (e ∙ q) w
Looping-eq e (disk_full t q f) = disk_full t (e ∙ q) f

-- A move within the bounds that ends the loop, and one that does not.
module _ (next : List ℕ → ℕ → ℕ → State → Outcome Written) (h i n written b o m : ℕ)
    (buffer : List ℕ) (s : State) (bound : b < data_blocks) (fit : o % block_size + m ≤ block_size)
    (has : m ≤ length buffer) where
  inside : (leb (b * block_size + o % block_size + m) fs_data_size && leb m (length buffer)) ≡ true
  inside = ground arith

  write_move-last :
      write_move next h i buffer n written s (b * block_size + o % block_size) m true
      ≡ done (some (written + m), put h i (b * block_size + o % block_size) m buffer s)
  unfolding write_move
  write_move-last = rw (inside, write_move) refl

  write_move-more :
      write_move next h i buffer n written s (b * block_size + o % block_size) m false
      ≡ next
          (drop m buffer)
          (n - m)
          (written + m)
          (put h i (b * block_size + o % block_size) m buffer s)
  unfolding write_move
  write_move-more = rw (inside, write_move) refl

Looping-trans :
    {s u : State} {h i o m n : ℕ} {buffer : List ℕ} {written : ℕ} {r : Outcome Written}
    → m ≤ n
    → o ≤ size_of s i
    → Wrote s u h i o m buffer
    → Looping u h i (o + m) (n - m) (drop m buffer) (written + m) r
    → Looping s h i o n buffer written r
Looping-trans {s} {u} {h} {i} {o} {m} {n} {buffer} {written} le start p (wrote t e q) =
    wrote t (e ∙ ap (λ k. done (some k, t)) {y = written + n} (omega arith))
      (Wrote-trans s u t h i o m n buffer le start p q)
Looping-trans le start p (disk_full t e f) = disk_full t e f

-- A turn at the block `b`, with the sizes written out.
pub write_turn-move :
    (next : List ℕ → ℕ → ℕ → State → Outcome Written) (k end_block h i n written b o m : ℕ)
    (last : Bool) (buffer : List ℕ) (t : State)
    → offset_of t h ≡ o
    → move_size k end_block o n ≡ m
    → is_last k end_block o n ≡ last
    → write_turn next k end_block h i buffer n written (some (b * block_size), t)
      ≡ write_move next h i buffer n written t (b * block_size + o % block_size) m last
write_turn-move next k end_block h i n written b o m last buffer t eo em el =
    ap
      (λ x.
        write_move next h i buffer n written t (b * block_size + x % block_size)
          (move_size k end_block x n) (is_last k end_block x n))
      eo
    ∙ ap₂ (λ x y. write_move next h i buffer n written t (b * block_size + o % block_size) x y) em
        el

-- What the loop does with `turns` turns from the block `k` on.
abbrev pub Loops : ℕ → ℕ → ℕ → ℕ → ℕ → Type 0
Loops turns k end_block h i =
    (n written o : ℕ) (buffer : List ℕ) (s : State)
    → Sound s i
    → offset_of s h ≡ o
    → o ≤ size_of s i
    → k ≡ o / block_size
    → k + turns ≡ end_block
    → 0 < n
    → o + n ≤ end_block * block_size
    → o + n ≤ max_direct_blocks * block_size
    → n ≤ length buffer
    → Looping s h i o n buffer written (write_loop turns k end_block h i buffer n written s)

-- The turns behind the one that has found the block `b`.
write_turn-Looping :
    (turns k end_block h i n written o b : ℕ) (buffer : List ℕ) (s t : State)
    → Loops turns (k + 1) end_block h i
    → Sound s i
    → Grown s t i k b
    → offset_of s h ≡ o
    → o ≤ size_of s i
    → k ≡ o / block_size
    → k + suc turns ≡ end_block
    → 0 < n
    → o + n ≤ end_block * block_size
    → o + n ≤ max_direct_blocks * block_size
    → n ≤ length buffer
    → Looping s h i o n buffer written (
        write_turn
          (λ buffer' n' written' s'. write_loop turns (k + 1) end_block h i buffer' n' written' s')
          k
          end_block
          h
          i
          buffer
          n
          written
          (some (b * block_size), t))
write_turn-Looping turns k end_block h i n written o b buffer s t more v g eo start ek et some_bytes
      end_le le has =
    let next : List ℕ → ℕ → ℕ → State → Outcome Written =
      λ buffer' n' written' s'. write_loop turns (k + 1) end_block h i buffer' n' written' s' in
    let g' : Grown s t i (o / block_size) b = subst (λ l. Grown s t i l b) ek g in
    let eo' : offset_of t h ≡ o = ap (λ f. (f h).of_offset) g.handles ∙ eo in
    let lt : o / block_size < max_direct_blocks = omega arith in
    elim (Bool-cases (fills_block k end_block o n)) [
      | inl fills ↦
          let m : ℕ = block_size - o % block_size in
          let less : m < n = ground arith in
          let fit : o % block_size + m ≤ block_size = omega arith in
          let w = after-Wrote s t h i o m b buffer v g' eo start lt fit in
          Looping-eq
            (write_turn-move next k end_block h i n written b o m false buffer t eo' (ground arith)
                (ground arith)
              ∙ write_move-more next h i n written b o m buffer t g.bound fit (omega arith))
            (Looping-trans (omega arith) start w (
              more (n - m) (written + m) (o + m) (drop m buffer)
                (put h i (b * block_size + o % block_size) m buffer t) w.sound w.offset
                (omega (arith, w.size)) (omega arith) (omega arith) (omega arith) (omega arith)
                (omega arith) (omega (arith, length-drop m buffer))))
      | inr not_fills ↦
          let fit : o % block_size + n ≤ block_size = ground arith in
          let short : leb n block_size ≡ true = ground arith in
          let w = after-Wrote s t h i o n b buffer v g' eo start lt fit in
          Looping-eq
            (write_turn-move next k end_block h i n written b o n true buffer t eo' (ground arith)
                (ground arith)
              ∙ write_move-last next h i n written b o n buffer t g.bound fit has)
            (wrote (put h i (b * block_size + o % block_size) n buffer t) refl w)
    ]

-- The loop within the direct blocks.
pub write_loop-Looping : (turns k end_block h i : ℕ) → Loops turns k end_block h i
unfolding write_loop write_block
write_loop-Looping zero k end_block h i n written o buffer s v eo start ek et some_bytes end_le le
      has =
    absurd (omega arith)
write_loop-Looping (suc turns) k end_block h i n written o buffer s v eo start ek et some_bytes
      end_le le has =
    let lt : k < max_direct_blocks = omega arith in
    let turn : Located → Outcome Written =
      write_turn
        (λ buffer' n' written' s'. write_loop turns (k + 1) end_block h i buffer' n' written' s') k
        end_block h i buffer n written in
    let direct : write_block i k s ≡ done (direct_block i k s) =
      rw (lt→ltb _ _ lt, write_block) refl in
    Looping-eq (ap (λ r. r >>= turn) direct) (elim (direct_block-Locating s i k v lt) [
      | no_block t e full ↦ Looping-eq (ap turn e) (disk_full t refl full)
      | got b t e g ↦ Looping-eq (ap turn e) (
          write_turn-Looping turns k end_block h i n written o b buffer s t
            (write_loop-Looping turns (k + 1) end_block h i) v g eo start ek et some_bytes end_le le
            has)
    ])
