-- ===== src/Fs/RoundTrip.antt =====
-- A write and a read of parte-2/fs/operations.c through two handles of one file.
use Prim.Native.Nat.{min}
use tecnicofs.Base.{
  none, minus_one, pos_part, subst, ℕ, ◌-◌, ◌≤◌, ◌<◌, ◌≡◌, ◌≢◌, arith, ap, ◌∙◌, sym, List, length,
  take, drop, overwrite, Option, some, ℤ, pos, length-take, length-drop, take-drop-overwrite,
}
use tecnicofs.Fs.State.{State}
use tecnicofs.Fs.Operations.{write_unsynchronized, read_unsynchronized}
use tecnicofs.Fs.Invariant.{IsValid, offset_of, size_of}
use tecnicofs.Fs.Invariant.Steps.{Refers}
use tecnicofs.Fs.Content.{content, length-content}
use tecnicofs.Fs.Write.Put.{Written}
use tecnicofs.Fs.Write.{WriteResult, wrote, disk_full, write_unsynchronized-refines}
use tecnicofs.Fs.Read.{next_bytes, read_unsynchronized-refines}

length-next_bytes :
    (s : State) (h i len : ℕ)
    → length (next_bytes s h i len) ≡ min len (size_of s i - offset_of s h)
length-next_bytes s h i len = omega (
  arith,
  length-take len (drop (offset_of s h) (content s i)),
  length-drop (offset_of s h) (content s i),
  length-content s i,
)

module _ {s t : State} (h k i : ℕ) (bytes : List ℕ) (w : Written s h i bytes t) where
  -- The other handle is still open on the same file.
  Refers-Written : Refers s k i → k ≢ h → Refers t k i
  Refers-Written r ne = (
    r.0,
    ap (λ f. f k) w.same_entries ∙ r.1,
    ap (λ e. e.of_inumber) (w.same_handles k ne) ∙ r.2,
    r.3,
    ap (λ f. f i) w.same_inodes ∙ r.4,
  )

  next_bytes-Written :
      offset_of s h ≤ size_of s i
      → offset_of t k ≡ offset_of s h
      → next_bytes t k i (length bytes) ≡ bytes
  next_bytes-Written le same =
      ap (λ c. take (length bytes) (drop (offset_of t k) c)) w.text
      ∙ ap (λ o. take (length bytes) (drop o (overwrite (content s i) (offset_of s h) bytes))) same
      ∙ take-drop-overwrite (content s i) (offset_of s h) bytes (omega (arith, length-content s i))

  read-Written :
      IsValid s
      → Refers s h i
      → Refers s k i
      → k ≢ h
      → offset_of s k ≡ offset_of s h
      → (u : State) × (read_unsynchronized (pos k) (length bytes) t
          ≡ some (pos (length bytes), bytes, u))
  read-Written v rh rk ne same =
      let at : offset_of t k ≡ offset_of s h = ap (λ e. e.of_offset) (w.same_handles k ne) ∙ same in
      let le : offset_of s h ≤ size_of s i = ground (arith, v.opened h rh.0 rh.1) in
      let p = read_unsynchronized-refines t k i (length bytes) w.valid (Refers-Written rk ne) in
      let all : next_bytes t k i (length bytes) ≡ bytes = next_bytes-Written le at in
      let count : min (length bytes) (size_of t i - offset_of t k) ≡ length bytes =
        sym (length-next_bytes t k i (length bytes)) ∙ ap length all in
      (p.after, p.returns ∙ λ j. some (pos (count j), all j, p.after))

minus_one≢pos :
    {t u : State} {n : ℕ} → ◌≢◌ {A = Option (ℤ × State)} (some (minus_one, t)) (some (pos n, u))
minus_one≢pos e = cc

read-WriteResult :
    {s : State} (h k i w n : ℕ) (buffer : List ℕ) (r : Option (ℤ × State)) (t : State)
    → WriteResult s h i w buffer r
    → IsValid s
    → Refers s h i
    → Refers s k i
    → k ≢ h
    → offset_of s k ≡ offset_of s h
    → n ≤ length buffer
    → r ≡ some (pos n, t)
    → (u : State) × (read_unsynchronized (pos k) n t ≡ some (pos n, take n buffer, u))
read-WriteResult {s} h k i w n buffer r t (wrote t' e p) v rh rk ne same fits q =
    let step : some (pos w, t') ≡ some (pos n, t) = sym e ∙ q in
    let w-eq : w ≡ n = ap (λ o. elim o [ none ↦ 0 | some x ↦ pos_part x.0 ]) step in
    let t-eq : t' ≡ t = ap (λ o. elim o [ none ↦ t' | some x ↦ x.1 ]) step in
    let p' : Written s h i (take n buffer) t =
      subst (λ m. Written s h i (take m buffer) t) w-eq
        (subst (λ x. Written s h i (take w buffer) x) t-eq p) in
    let count : length (take n buffer) ≡ n = omega (arith, length-take n buffer) in
    subst (λ m. (u : State) × (read_unsynchronized (pos k) m t ≡ some (pos m, take n buffer, u)))
      count (read-Written h k i (take n buffer) p' v rh rk ne same)
read-WriteResult h k i w n buffer r t (disk_full t' e _ _ _ _ _) v rh rk ne same fits q =
    absurd (minus_one≢pos (sym e ∙ q))

-- In a valid state, when a write of n bytes through one handle, of at most the bytes of its buffer
-- and less than 2^63, returns n, a read of n bytes through another open handle of the same file,
-- which stood where the first one stood, returns n and gives exactly the first n bytes of the
-- buffer.
pub read-after-write :
    (s t : State) (h k i n : ℕ) (buffer : List ℕ)
    → IsValid s
    → Refers s h i
    → Refers s k i
    → k ≢ h
    → offset_of s k ≡ offset_of s h
    → n ≤ length buffer
    → n < 0x8000000000000000
    → write_unsynchronized (pos h) buffer n s ≡ some (pos n, t)
    → (u : State) × (read_unsynchronized (pos k) n t ≡ some (pos n, take n buffer, u))
read-after-write s t h k i n buffer v rh rk ne same fits small q =
    read-WriteResult h k i _ n buffer _ t
      (write_unsynchronized-refines s h i n buffer v rh fits small) v rh rk ne same fits q
