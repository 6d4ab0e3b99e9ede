-- ===== src/First/Puts.antt =====
-- One turn of the loop of tfs_write in parte-1/fs/operations.c, at a direct block.
use tecnicofs.Base.{
  ℕ, ◌+◌, ◌-◌, ◌*◌, ◌/◌, ◌%◌, ◌≤◌, ◌<◌, ◌≡◌, ◌≢◌, ◌∙◌, ap, sym, subst, arith, ◌⊎◌, inl, inr, false,
  ◌==◌, ◌&&◌, ltb, leb, if◌then◌else◌, Bool-cases, List, get_or, pos, pos_part,
}
use Prim.Native.Nat.{max}
use tecnicofs.Memory.{memcpy}
use tecnicofs.Memory.Blocks.{write_bytes_in, write_bytes_out}
use tecnicofs.Fs.State.{AllocationState, free, taken, block_size, data_blocks}
use tecnicofs.Fs.Operations.{size_mod}
use tecnicofs.First.State.{State, Inode, max_direct_blocks}
use tecnicofs.First.Operations.Write.{put}
use tecnicofs.First.Content.{size_of, offset_of, file_bytes}
use tecnicofs.First.Sound.{IsBlock, IsSound, Sound, Grown, block_of, pos≢minus_one}
use tecnicofs.First.Written.{Wrote, file_bytes-direct, taken≢free, update_at}

-- A write that ends in the block of its offset leaves a sound file.
resized-IsSound :
    {n : Inode} {f : ℕ → AllocationState} (o m b : ℕ)
    → IsSound n f
    → o ≤ n.i_size
    → o / block_size < max_direct_blocks
    → n.i_data_block (o / block_size) ≡ pos b
    → o % block_size + m ≤ block_size
    → IsSound (record n { i_size = max n.i_size (o + m) }) f
resized-IsSound {n} {f} o m b v le lt e fit = record {
  direct = v.direct;
  apart = v.apart;
  filled = λ k d. elim (Bool-cases (ltb (k * block_size) n.i_size)) [
    | inl old ↦ v.filled k (ground arith)
    | inr past ↦
        let here : k ≡ o / block_size = ground arith in
        elim (v.direct (o / block_size) lt) [
          | inl none_yet ↦ absurd (ground arith)
          | inr there ↦ subst (λ l. IsBlock f (n.i_data_block l)) (sym here) there
        ]
  ];
  short = omega (arith, v.short);
}

module _ (s s' : State) (h i o m b : ℕ) (buffer : List ℕ) (v : Sound s i)
    (g : Grown s s' i (o / block_size) b) (eo : offset_of s h ≡ o) (le : o ≤ size_of s i)
    (lt : o / block_size < max_direct_blocks) (fit : o % block_size + m ≤ block_size) where
  abbrev after : State
  after = put h i (b * block_size + o % block_size) m buffer s'

  after-node :
      after.inode_table i ≡ record (s'.inode_table i) { i_size = max (size_of s' i) (o + m) }
  after-node =
      let wrap : ((s'.open_file_table h).of_offset + m) % size_mod ≡ o + m =
        ap (λ f. ((f h).of_offset + m) % size_mod) g.handles ∙ omega arith in
      update_at s'.inode_table i _
      ∙ ap (λ z. record (s'.inode_table i) { i_size = z })
          (ap (λ z. if ltb (size_of s' i) z then z else size_of s' i) wrap ∙ ground arith)

  after-Sound : Sound after i
  after-Sound =
      subst (λ n. IsSound n s'.free_blocks) (sym after-node)
        (resized-IsSound o m b g.sound (omega (arith, g.size)) lt g.block fit)

  after-size : size_of after i ≡ max (size_of s i) (o + m)
  after-size = ap (λ n. n.i_size) after-node ∙ ap (λ z. max z (o + m)) g.size

  after-block : (k : ℕ) → block_of after i k ≡ block_of s' i k
  after-block k = ap (λ n. n.i_data_block k) after-node

  after-offset : offset_of after h ≡ o + m
  after-offset =
      ap (λ f. f.of_offset)
        (update_at s'.open_file_table h (record (s'.open_file_table h) {
          of_offset = ((s'.open_file_table h).of_offset + m) % size_mod;
        }))
      ∙ ap (λ f. ((f h).of_offset + m) % size_mod) g.handles
      ∙ omega arith

  -- The byte `x` of the file, in the block `c` of the index `x / 1024`.
  after-byte :
      (x c : ℕ)
      → x < size_of after i
      → block_of s' i (x / block_size) ≡ pos c
      → c < data_blocks
      → file_bytes after i x
        ≡ memcpy s'.fs_data
            (b * block_size + o % block_size)
            buffer
            m
            (c * block_size + x % block_size)
  after-byte x c d e bound =
      file_bytes-direct after i x c (omega (arith, after-Sound.short))
        (after-block (x / block_size) ∙ e) bound

  same_block :
      (x c : ℕ) → x / block_size ≡ o / block_size → block_of s' i (x / block_size) ≡ pos c → c ≡ b
  same_block x c e p = ap pos_part (sym p ∙ ap (λ k. block_of s' i k) e ∙ g.block)

  -- Behind the write, a byte that was in the file stands where it stood.
  old_block :
      (x c : ℕ)
      → x < size_of s i
      → block_of s' i (x / block_size) ≡ pos c
      → block_of s i (x / block_size) ≡ pos c
  old_block x c d p = elim (Bool-cases (x / block_size == o / block_size)) [
    | inl e ↦
        let here : x / block_size ≡ o / block_size = ground arith in
        elim g.old [
          | inl q ↦ ap (λ k. block_of s i k) here ∙ q ∙ ap pos (sym (same_block x c here p))
          | inr (q, f) ↦
              let (c', q', bound, t) = v.filled (o / block_size) (omega arith) in
              absurd (pos≢minus_one (sym q' ∙ q))
        ]
    | inr ne ↦ sym (g.rest (x / block_size) (ground arith)) ∙ p
  ]

  away :
      (x c : ℕ)
      → x / block_size < max_direct_blocks
      → (leb o x && ltb x (o + m)) ≡ false
      → block_of s' i (x / block_size) ≡ pos c
      → (c * block_size + x % block_size < b * block_size + o % block_size)
        ⊎ (b * block_size + o % block_size + m ≤ c * block_size + x % block_size)
  away x c inside other p = elim (Bool-cases (x / block_size == o / block_size)) [
    | inl e ↦
        let here : x / block_size ≡ o / block_size = ground arith in
        let q : c ≡ b = same_block x c here p in ground arith
    | inr ne ↦
        let apart : x / block_size ≢ o / block_size = ground arith in
        let differ : c ≢ b = λ (q : c ≡ b).
          apart
            (g.sound.apart (x / block_size) (o / block_size) b inside lt (p ∙ ap pos q) g.block) in
        elim (Bool-cases (ltb c b)) [
          | inl before ↦ inl (ground arith)
          | inr behind ↦ inr (ground arith)
        ]
  ]

  after-text :
      (x : ℕ) → x < size_of after i → file_bytes after i x ≡ memcpy (file_bytes s i) o buffer m x
  unfolding memcpy
  after-text x d =
      let (c, e, bound, t) = after-Sound.filled (x / block_size) (omega arith) in
      let p : block_of s' i (x / block_size) ≡ pos c = sym (after-block (x / block_size)) ∙ e in
      let inside : x / block_size < max_direct_blocks = omega (arith, after-Sound.short) in
      after-byte x c d p bound ∙ elim (Bool-cases (leb o x && ltb x (o + m))) [
        | inl written ↦
            let here : x / block_size ≡ o / block_size = ground arith in
            let q : c ≡ b = same_block x c here p in
            write_bytes_in s'.fs_data (b * block_size + o % block_size) m (λ k. get_or buffer k 0)
              (x - o) (c * block_size + x % block_size) (ground arith) (ground arith)
            ∙ sym (
                write_bytes_in (file_bytes s i) o m (λ k. get_or buffer k 0) (x - o) x
                  (ground arith) (ground arith))
        | inr other ↦
            let old : x < size_of s i = ground (arith, after-size) in
            write_bytes_out s'.fs_data (b * block_size + o % block_size) m (λ k. get_or buffer k 0)
              (c * block_size + x % block_size) (away x c inside other p)
            ∙ ap (λ f. f (c * block_size + x % block_size)) g.memory
            ∙ sym (file_bytes-direct s i x c inside (old_block x c old p) bound)
            ∙ sym (write_bytes_out (file_bytes s i) o m (λ k. get_or buffer k 0) x (ground arith))
      ]

  -- A byte of a block that was taken, and is none of the file's, lies outside what is written.
  kept_away :
      (x : ℕ)
      → s.free_blocks (x / block_size) ≡ taken
      → ((k : ℕ) → k < max_direct_blocks → block_of s i k ≢ pos (x / block_size))
      → x / block_size ≢ b
  kept_away x t other e = elim g.old [
    | inl q ↦ other (o / block_size) lt (q ∙ ap pos (sym e))
    | inr (q, f) ↦ taken≢free (sym t ∙ ap s.free_blocks e ∙ f)
  ]

  after-kept :
      (x : ℕ)
      → s.free_blocks (x / block_size) ≡ taken
      → ((k : ℕ) → k < max_direct_blocks → block_of s i k ≢ pos (x / block_size))
      → after.fs_data x ≡ s.fs_data x
  unfolding memcpy
  after-kept x t other =
      let ne : x / block_size ≢ b = kept_away x t other in
      write_bytes_out s'.fs_data (b * block_size + o % block_size) m (λ k. get_or buffer k 0) x
        (elim (Bool-cases (ltb (x / block_size) b)) [
          | inl before ↦ inl (ground arith)
          | inr behind ↦ inr (ground arith)
        ])
      ∙ ap (λ f. f x) g.memory

  after-fresh :
      (k c : ℕ) → block_of after i k ≡ pos c → (block_of s i k ≡ pos c) ⊎ (s.free_blocks c ≡ free)
  after-fresh k c e = elim (Bool-cases (k == o / block_size)) [
    | inl eq ↦
        let here : k ≡ o / block_size = ground arith in
        let q : c ≡ b =
          ap pos_part (sym e ∙ after-block k ∙ ap (λ l. block_of s' i l) here ∙ g.block) in
        elim g.old [
          | inl p ↦ inl (ap (λ l. block_of s i l) here ∙ p ∙ ap pos (sym q))
          | inr (p, f) ↦ inr (ap s.free_blocks q ∙ f)
        ]
    | inr ne ↦ inl (sym (g.rest k (ground arith)) ∙ sym (after-block k) ∙ e)
  ]

  pub after-Wrote : Wrote s after h i o m buffer
  after-Wrote = record {
    sound = after-Sound;
    size = after-size;
    text = after-text;
    offset = after-offset;
    kept = after-kept;
    fresh = λ k c l. after-fresh k c;
    taken_kept = g.taken_kept;
    nodes = λ j ne. ground arith ∙ g.nodes j ne;
    handles = λ f ne. ground arith ∙ ap (λ t. t f) g.handles;
    number =
        ap (λ f. f.of_inumber)
          (update_at s'.open_file_table h (record (s'.open_file_table h) {
            of_offset = ((s'.open_file_table h).of_offset + m) % size_mod;
          }))
        ∙ ap (λ t. (t h).of_inumber) g.handles;
    file_locks = g.file_locks;
    node_locks = g.node_locks;
  }
