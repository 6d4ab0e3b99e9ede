-- ===== src/Memory/Blocks.antt =====
-- Writes and reads of byte ranges.
use Prim.Native.Nat.{min, max}
use tecnicofs.Base.{
  ℕ, zero, suc, ◌+◌, ◌-◌, ◌≤◌, ◌<◌, ◌≡◌, refl, ap, ◌∙◌, ap₂, ◌⊎◌, List, [], ◌∷◌, ◌++◌, arith,
  length, get_or, take, drop, overwrite, length-take, sym, inl, inr,
}
use tecnicofs.Memory.{Memory, write_bytes, read_bytes, memcpy}

-- Two memories agree on the `n` bytes from `a` on.
abbrev pub Agree : Memory → Memory → ℕ → ℕ → Type 0
Agree m m' a n = (x : ℕ) → a ≤ x → x < a + n → m x ≡ m' x

pub write_bytes_out :
    (m : Memory) (a n : ℕ) (f : ℕ → ℕ) (x : ℕ) → (x < a) ⊎ (a + n ≤ x) → write_bytes m a n f x ≡ m x
unfolding write_bytes
write_bytes_out m a n f x h = ground arith

pub write_bytes_in :
    (m : Memory) (a n : ℕ) (f : ℕ → ℕ) (k x : ℕ) → k < n → x ≡ a + k → write_bytes m a n f x ≡ f k
unfolding write_bytes
write_bytes_in m a n f k x h e = let e' : x - a ≡ k = omega arith in rw (← e') (ground arith)

-- The address and the length up to equations of numbers.
pub read_bytes-cong :
    (m : Memory) {a b n k : ℕ} → a ≡ b → n ≡ k → read_bytes m a n ≡ read_bytes m b k
read_bytes-cong m p q = ap₂ (read_bytes m) p q

pub length-read_bytes : (m : Memory) (a n : ℕ) → length (read_bytes m a n) ≡ n
unfolding read_bytes
length-read_bytes m a zero = refl
length-read_bytes m a (suc n) = ap suc (length-read_bytes m (a + 1) n)

pub read_bytes-zero : (m : Memory) (a n : ℕ) → n ≡ 0 → read_bytes m a n ≡ []
unfolding read_bytes
read_bytes-zero m a zero h = refl
read_bytes-zero m a (suc n) h = absurd (omega arith)

pub read_bytes-Agree :
    (m m' : Memory) (a n : ℕ) → Agree m m' a n → read_bytes m a n ≡ read_bytes m' a n
unfolding read_bytes
read_bytes-Agree m m' a zero h = refl
read_bytes-Agree m m' a (suc n) h =
    ap₂ ◌∷◌ (h a (omega arith) (omega arith))
      (read_bytes-Agree m m' (a + 1) n (λ x p q. h x (omega arith) (omega arith)))

-- A read is the concatenation of two reads.
pub read_bytes-add :
    (m : Memory) (a k n : ℕ) → read_bytes m a (k + n) ≡ read_bytes m a k ++ read_bytes m (a + k) n
unfolding read_bytes
read_bytes-add m a zero n = read_bytes-cong m (omega arith) (omega arith)
read_bytes-add m a (suc k) n =
    let split : read_bytes m (a + 1) (k + n)
        ≡ read_bytes m (a + 1) k ++ read_bytes m (a + suc k) n =
      read_bytes-add m (a + 1) k n
      ∙ ap (λ r. read_bytes m (a + 1) k ++ r) (read_bytes-cong m (omega arith) refl) in
    read_bytes-cong m {n = suc k + n} {k = suc (k + n)} refl (omega arith) ∙ ap (λ r. m a ∷ r) split

pub read_bytes-drop :
    (m : Memory) (a k n : ℕ) → drop k (read_bytes m a n) ≡ read_bytes m (a + k) (n - k)
unfolding read_bytes
read_bytes-drop m a zero n = read_bytes-cong m (omega arith) (omega arith)
read_bytes-drop m a (suc k) zero = read_bytes-cong m {a = a + suc k} {n = 0} refl (omega arith)
read_bytes-drop m a (suc k) (suc n) =
    read_bytes-drop m (a + 1) k n ∙ read_bytes-cong m (omega arith) (omega arith)

pub read_bytes-take :
    (m : Memory) (a k n : ℕ) → take k (read_bytes m a n) ≡ read_bytes m a (min k n)
unfolding read_bytes
read_bytes-take m a zero n = read_bytes-cong m {a = a} {n = 0} refl (omega arith)
read_bytes-take m a (suc k) zero = read_bytes-cong m {a = a} {n = 0} refl (omega arith)
read_bytes-take m a (suc k) (suc n) =
    ap (λ r. m a ∷ r) (read_bytes-take m (a + 1) k n)
    ∙ read_bytes-cong m {a = a} {n = suc (min k n)} refl (omega arith)

-- A memory that holds a buffer's bytes reads them back.
pub read_bytes-get_or :
    (m : Memory) (a n : ℕ) (xs : List ℕ)
    → n ≤ length xs
    → ((k : ℕ) → k < n → m (a + k) ≡ get_or xs k 0)
    → read_bytes m a n ≡ take n xs
unfolding read_bytes
read_bytes-get_or m a zero xs h e = refl
read_bytes-get_or m a (suc n) [] h e = absurd (omega arith)
read_bytes-get_or m a (suc n) (x ∷ xs) h e = ap₂ ◌∷◌ (ap m (omega arith) ∙ e 0 (omega arith)) (
    read_bytes-get_or m (a + 1) n xs (omega arith)
      λ k p. ap m (omega arith) ∙ e (suc k) (omega arith))

-- A memcpy into a file's bytes overwrites them, and may lengthen them.
pub read_bytes-memcpy :
    (m : Memory) (a size i n size' : ℕ) (buffer : List ℕ)
    → i ≤ size
    → n ≤ length buffer
    → size' ≡ max size (i + n)
    → read_bytes (memcpy m (a + i) buffer n) a size'
      ≡ overwrite (read_bytes m a size) i (take n buffer)
unfolding memcpy
read_bytes-memcpy m a size i n size' buffer hi hn hs =
    let m' : Memory = write_bytes m (a + i) n (λ k. get_or buffer k 0) in
    let rest = size - (i + n) in
    let front : read_bytes m' a i ≡ take i (read_bytes m a size) =
      read_bytes-Agree m' m a i
        (λ x p q. write_bytes_out m (a + i) n (λ k. get_or buffer k 0) x (inl (omega arith)))
      ∙ read_bytes-cong m refl (omega arith)
      ∙ sym (read_bytes-take m a i size) in
    let middle : read_bytes m' (a + i) n ≡ take n buffer =
      read_bytes-get_or m' (a + i) n buffer hn
        (λ k p. write_bytes_in m (a + i) n (λ k. get_or buffer k 0) k (a + i + k) p refl) in
    let back : read_bytes m' (a + i + n) rest
        ≡ drop (i + length (take n buffer)) (read_bytes m a size) =
      read_bytes-Agree m' m (a + i + n) rest
        (λ x p q. write_bytes_out m (a + i) n (λ k. get_or buffer k 0) x (inr (omega arith)))
      ∙ read_bytes-cong m (omega (arith, length-take n buffer))
          (omega (arith, length-take n buffer))
      ∙ sym (read_bytes-drop m a (i + length (take n buffer)) size) in
    read_bytes-cong m' {a = a} refl (omega arith)
    ∙ read_bytes-add m' a i (n + rest)
    ∙ ap₂ (λ xs ys. xs ++ ys) front
        (read_bytes-add m' (a + i) n rest ∙ ap₂ (λ xs ys. xs ++ ys) middle back)
