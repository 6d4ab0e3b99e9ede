-- ===== src/First/Joins.antt =====
-- Two turns of the loop of tfs_write in parte-1/fs/operations.c as one.
use tecnicofs.Base.{
  ℕ, ◌+◌, ◌-◌, ◌/◌, ◌≤◌, ◌<◌, ◌≡◌, ◌≢◌, ◌∙◌, ap, sym, refl, arith, inl, inr, false, ◌&&◌, ltb, leb,
  Bool-cases, List, get_or, get_or-drop, drop,
}
use Prim.Native.Nat.{max}
use tecnicofs.Memory.{Memory, memcpy, write_bytes}
use tecnicofs.Memory.Blocks.{write_bytes_in, write_bytes_out}
use tecnicofs.Fs.State.{AllocationState, free, taken, block_size}
use tecnicofs.First.State.{State}
use tecnicofs.First.Content.{size_of, file_bytes}
use tecnicofs.First.Written.{Wrote, taken≢free}

free_before : (a : AllocationState) → (a ≢ taken) → a ≡ free
free_before free ne = refl
free_before taken ne = absurd (ne refl)

memcpy-longer :
    (f : Memory) (o m n x : ℕ) (buffer : List ℕ)
    → m ≤ n
    → (leb (o + m) x && ltb x (o + n)) ≡ false
    → memcpy f o buffer m x ≡ memcpy f o buffer n x
unfolding memcpy write_bytes
memcpy-longer f o m n x buffer le other = ground arith

-- Two writes, one behind the other, are one write.
module _ (s u t : State) (h i o m n : ℕ) (buffer : List ℕ) (le : m ≤ n) (start : o ≤ size_of s i)
    (p : Wrote s u h i o m buffer) (q : Wrote u t h i (o + m) (n - m) (drop m buffer)) where
  Wrote-size : size_of t i ≡ max (size_of s i) (o + n)
  Wrote-size = omega (arith, p.size, q.size)

  Wrote-text : (x : ℕ) → x < size_of t i → file_bytes t i x ≡ memcpy (file_bytes s i) o buffer n x
  unfolding memcpy
  Wrote-text x d = q.text x d ∙ elim (Bool-cases (leb (o + m) x && ltb x (o + n))) [
    | inl second ↦
        write_bytes_in (file_bytes u i) (o + m) (n - m) (λ k. get_or (drop m buffer) k 0)
          (x - (o + m)) x (ground arith) (ground arith)
        ∙ sym (get_or-drop m (x - (o + m)) buffer 0)
        ∙ ap (λ k. get_or buffer k 0) {y = x - o} (ground arith)
        ∙ sym (
            write_bytes_in (file_bytes s i) o n (λ k. get_or buffer k 0) (x - o) x (ground arith)
              (ground arith))
    | inr other ↦
        write_bytes_out (file_bytes u i) (o + m) (n - m) (λ k. get_or (drop m buffer) k 0) x
          (elim (Bool-cases (ltb x (o + m))) [
            | inl before ↦ inl (ground arith)
            | inr behind ↦ inr (ground arith)
          ])
        ∙ p.text x (ground (arith, p.size, q.size))
        ∙ memcpy-longer (file_bytes s i) o m n x buffer le other
  ]

  pub Wrote-trans : Wrote s t h i o n buffer
  Wrote-trans = record {
    sound = q.sound;
    size = Wrote-size;
    text = Wrote-text;
    offset = omega (arith, q.offset);
    kept = λ x k other.
        q.kept x (p.taken_kept (x / block_size) k) (λ j lt e.
          elim (p.fresh j (x / block_size) lt e) [
            | inl r ↦ other j lt r
            | inr r ↦ taken≢free (sym k ∙ r)
          ])
        ∙ p.kept x k other;
    fresh = λ k b lt e. elim (q.fresh k b lt e) [
      | inl r ↦ p.fresh k b lt r
      | inr r ↦ inr (free_before (s.free_blocks b) (λ k. taken≢free (sym (p.taken_kept b k) ∙ r)))
    ];
    taken_kept = λ c k. q.taken_kept c (p.taken_kept c k);
    nodes = λ j ne. q.nodes j ne ∙ p.nodes j ne;
    handles = λ g ne. q.handles g ne ∙ p.handles g ne;
    number = q.number ∙ p.number;
    file_locks = q.file_locks ∙ p.file_locks;
    node_locks = q.node_locks ∙ p.node_locks;
  }
