-- ===== src/First/CopyLoop.antt =====
-- The loop of tfs_copy_to_external_fs in parte-1/fs/operations.c.
use tecnicofs.Base.{
  ℕ, zero, suc, ◌+◌, ◌-◌, ◌*◌, ◌%◌, ◌≤◌, ◌<◌, ◌≡◌, ◌∙◌, ap, ap₂, sym, refl, arith, true, false,
  Bool-cases, inl, inr, ◌==◌, List, ◌++◌, length, take, take-all, append_assoc, pos,
}
use Prim.Native.Nat.{min}
use tecnicofs.Memory.{read_bytes}
use tecnicofs.Memory.Blocks.{read_bytes-add, read_bytes-cong, length-read_bytes}
use tecnicofs.Fs.State.{block_size}
use tecnicofs.First.State.{State, Outcome, done, ◌>>=◌}
use tecnicofs.First.Operations.Read.{set_offset}
use tecnicofs.First.Operations.Copy.{Outside, Copied, copy_round, copy_loop}
use tecnicofs.First.Locked.{Ready}
use tecnicofs.First.Content.{size_of, offset_of, file_bytes, Stored}
use tecnicofs.First.Reads.{tfs_read-Stored}
use tecnicofs.First.ReadLoop.{set_offset_twice, Stored-set_offset, file_bytes-set_offset}

-- The calls outside succeed.
pub record Works (o : Outside) : Type 0 where
  pub opens : o.opened ≡ true
  pub allocates : o.allocated ≡ true
  pub writes : (bytes : List ℕ) → o.fwrite bytes ≡ length bytes

module _ (next : List ℕ → State → Outcome Copied) (o : Outside) (copied bytes : List ℕ) (n : ℕ)
    (s : State) (w : Works o) (e : length bytes ≡ n) where
  all_bytes : take n bytes ≡ bytes
  all_bytes = take-all n bytes (omega arith)

  all_written : (o.fwrite bytes == length bytes) ≡ true
  all_written = ground (arith, w.writes bytes)

  written_bytes : take (o.fwrite (take n bytes)) (take n bytes) ≡ bytes
  written_bytes =
      ap (λ x. take (o.fwrite x) x) all_bytes
      ∙ take-all (o.fwrite bytes) bytes (omega (arith, w.writes bytes))

  copy_round-last :
      (n == block_size) ≡ false
      → copy_round next o copied (pos n, bytes, s) ≡ done (pos 0, copied ++ bytes, s)
  unfolding copy_round
  copy_round-last short =
      rw (all_bytes, all_written, short, copy_round)
        (ap (λ x. done (pos 0, copied ++ x, s)) written_bytes)

  copy_round-more :
      (n == block_size) ≡ true
      → copy_round next o copied (pos n, bytes, s) ≡ next (copied ++ bytes) s
  unfolding copy_round
  copy_round-more whole =
      rw (all_bytes, all_written, whole, copy_round) (ap (λ x. next (copied ++ x) s) written_bytes)

Ready-set_offset : {s : State} {h i : ℕ} (o : ℕ) → Ready s h i → Ready (set_offset h o s) h i
Ready-set_offset o r = record {
  handle = r.handle;
  number = ground (arith, r.number);
  node = r.node;
  file_free = r.file_free;
  node_free = r.node_free;
}

-- The loop copies the file from a whole number of blocks on, if the fuel has a round for each block.
pub copy_loop-copies :
    (fuel : ℕ) (out : Outside) (copied : List ℕ) (h i o : ℕ) (s : State)
    → Works out
    → Ready s h i
    → Stored s i
    → offset_of s h ≡ o
    → o ≤ size_of s i
    → o % block_size ≡ 0
    → size_of s i < 0x8000000000000000
    → size_of s i < o + fuel * block_size
    → copy_loop fuel out (pos h) copied s
      ≡ done (
        pos 0,
        copied ++ read_bytes (file_bytes s i) o (size_of s i - o),
        set_offset h (size_of s i) s,
      )
unfolding copy_loop
copy_loop-copies zero out copied h i o s w r st eo le whole small enough = absurd (omega arith)
copy_loop-copies (suc fuel) out copied h i o s w r st eo le whole small enough =
    let n : ℕ = min block_size (size_of s i - o) in
    let next : List ℕ → State → Outcome Copied = λ all s'. copy_loop fuel out (pos h) all s' in
    let bytes : List ℕ = read_bytes (file_bytes s i) o n in
    let s' : State = set_offset h (o + n) s in
    ap (λ x. x >>= copy_round next out copied)
      (tfs_read-Stored s h i block_size n o r st eo le small refl (λ _ _. whole))
    ∙ elim (Bool-cases (n == block_size)) [
      | inl e ↦
          let full : n ≡ block_size = ground arith in
          copy_round-more next out copied bytes n s' w (length-read_bytes (file_bytes s i) o n) e
          ∙ copy_loop-copies fuel out (copied ++ bytes) h i (o + n) s' w
              (Ready-set_offset (o + n) r) (Stored-set_offset h (o + n) s i st) (ground arith)
              (omega arith) (omega arith) small (omega arith)
          ∙ ap₂ (λ x y. done (pos 0, x, y))
              (append_assoc copied bytes
                  (read_bytes (file_bytes s' i) (o + n) (size_of s i - (o + n)))
                ∙ ap (λ xs. copied ++ xs)
                    (ap (λ f. bytes ++ read_bytes f (o + n) (size_of s i - (o + n)))
                        (file_bytes-set_offset h (o + n) s i)
                      ∙ sym (read_bytes-add (file_bytes s i) o n (size_of s i - (o + n)))
                      ∙ read_bytes-cong (file_bytes s i) {a = o} refl (omega arith)))
              (set_offset_twice h (o + n) (size_of s i) s)
      | inr e ↦
          let short : n ≡ size_of s i - o = ground arith in
          copy_round-last next out copied bytes n s' w (length-read_bytes (file_bytes s i) o n) e
          ∙ ap₂ (λ x y. done (pos 0, copied ++ read_bytes (file_bytes s i) o x, set_offset h y s))
              short (omega arith)
    ]
