-- ===== src/First/RoundTrip.antt =====
-- A write of parte-1/fs/operations.c, and a read through another handle of the file.
use tecnicofs.Base.{
  ℕ, ◌+◌, ◌*◌, ◌%◌, ◌≤◌, ◌<◌, ◌≡◌, ◌≢◌, ◌∙◌, ap, refl, arith, ◌⊎◌, inl, inr, List, length, take,
  get_or, pos, minus_one,
}
use tecnicofs.Memory.{memcpy, read_bytes}
use tecnicofs.Memory.Blocks.{read_bytes-get_or, write_bytes_in}
use tecnicofs.Fs.State.{block_size, data_blocks, taken}
use tecnicofs.First.State.{State, done, max_direct_blocks}
use tecnicofs.First.Operations.Write.{tfs_write}
use tecnicofs.First.Operations.Read.{tfs_read, set_offset}
use tecnicofs.First.Content.{size_of, offset_of, file_bytes, Stored}
use tecnicofs.First.Sound.{Sound}
use tecnicofs.First.Written.{Wrote, read_block-direct}
use tecnicofs.First.Locked.{Ready}
use tecnicofs.First.Reads.{tfs_read-Stored}
use tecnicofs.First.Writes.{Writing, writes, no_block_left, tfs_write-Writing}

-- The blocks of a sound file can be read.
pub Sound-Stored : (s : State) (i : ℕ) → Sound s i → Stored s i
Sound-Stored s i v k lt =
    let (b, e, bound, t) = v.filled k lt in
    (b * block_size, read_block-direct s i k b (omega (arith, v.short)) e bound, omega arith)

-- The other handle is as before.
Ready-Wrote :
    {s t : State} {h g i o n : ℕ} {buffer : List ℕ}
    → Wrote s t h i o n buffer
    → g ≢ h
    → Ready s g i
    → Ready t g i
Ready-Wrote {g = g} {i = i} w ne r = record {
  handle = r.handle;
  number = ap (λ e. e.of_inumber) (w.handles g ne) ∙ r.number;
  node = r.node;
  file_free = ap (λ f. f g) w.file_locks ∙ r.file_free;
  node_free = ap (λ f. f i) w.node_locks ∙ r.node_free;
}

-- The written bytes, in the file behind the write.
read_bytes-Wrote :
    {s t : State} {h i o n : ℕ} {buffer : List ℕ}
    → Wrote s t h i o n buffer
    → n ≤ length buffer
    → read_bytes (file_bytes t i) o n ≡ take n buffer
unfolding memcpy
read_bytes-Wrote {s} {t} {h} {i} {o} {n} {buffer} w has =
    read_bytes-get_or (file_bytes t i) o n buffer has λ k lt.
      w.text (o + k) (omega (arith, w.size))
      ∙ write_bytes_in (file_bytes s i) o n (λ j. get_or buffer j 0) k (o + k) lt refl

-- What the two calls give: the written bytes come back, or no block was left for them.
abbrev pub GivenBack : State → ℕ → ℕ → ℕ → List ℕ → Type 0
GivenBack s h g n buffer =
    ((t : State) × (tfs_write (pos h) buffer n s ≡ done (pos n, t))
      × (tfs_read (pos g) n t ≡ done (pos n, take n buffer, set_offset g (offset_of s h + n) t)))
    ⊎ ((t : State) × (tfs_write (pos h) buffer n s ≡ done (minus_one, t))
        × ((b : ℕ) → b < data_blocks → t.free_blocks b ≡ taken))

given_back :
    (s : State) (h g i n : ℕ) (buffer : List ℕ)
    → Ready s g i
    → g ≢ h
    → offset_of s g ≡ offset_of s h
    → n ≤ length buffer
    → (n % block_size ≡ 0 → offset_of s h % block_size ≡ 0)
    → Writing s h i n buffer (tfs_write (pos h) buffer n s)
    → GivenBack s h g n buffer
given_back s h g i n buffer r ne same has whole (no_block_left t e f) = inr (t, e, f)
given_back s h g i n buffer r ne same has whole (writes t e w c) =
    let o : ℕ = offset_of s h in
    let at : offset_of t g ≡ o = ap (λ f. f.of_offset) (w.handles g ne) ∙ same in
    inl (
      t,
      e,
      tfs_read-Stored t g i n n o (Ready-Wrote w ne r) (Sound-Stored t i w.sound) at
            (omega (arith, w.size)) (omega (arith, w.sound.short)) (omega (arith, w.size))
            (λ p. whole)
          ∙ ap (λ xs. done (pos n, xs, set_offset g (o + n) t)) (read_bytes-Wrote w has),
    )

-- In parte-1, under the conditions of a write within the direct blocks, and with another ready
-- handle of the file at the same offset: either the write of n bytes returns n, and a read of n
-- bytes through the other handle then gives the first n bytes of the buffer; or the write returns
-- -1 and all blocks are taken.
pub tfs_read-tfs_write :
    (s : State) (h g i n : ℕ) (buffer : List ℕ)
    → Ready s h i
    → Ready s g i
    → g ≢ h
    → Sound s i
    → offset_of s g ≡ offset_of s h
    → offset_of s h ≤ size_of s i
    → offset_of s h + n ≤ max_direct_blocks * block_size
    → n ≤ length buffer
    → 0 < n
    → (n % block_size ≡ 0 → offset_of s h % block_size ≡ 0)
    → GivenBack s h g n buffer
tfs_read-tfs_write s h g i n buffer rh rg ne v same start le has some_bytes whole =
    given_back s h g i n buffer rg ne same has whole
      (tfs_write-Writing s h i n buffer rh v start le has some_bytes whole)
