-- ===== src/Net/Transfer.antt =====
-- read_buffer and write_buffer of parte-2/fs/state.c, and the client's write_buffer. What the
-- calls of read and write return is a list: a failure, or the number of bytes that were ready, at
-- least one, of which a call moves at most the number asked for. A pipe is the bytes still in it.
use Prim.Native.Nat.{min}
use tecnicofs.Base.{
  ℕ, zero, suc, ◌+◌, ◌-◌, ◌≤◌, ◌≡◌, ◌∙◌, ap, ap₂, sym, refl, arith, Option, none, some, List, [],
  ◌∷◌, append_assoc, ◌++◌, length, take, drop, length-drop, leb, true, if◌then◌else◌, ℤ, pos,
  minus_one,
}

-- What one call returns.
pub data Moved : Type 0 where
  failed : Moved
  ready : ℕ → Moved

-- How many bytes a call moves that was asked for `n`.
abbrev pub moved : ℕ → ℕ → ℕ
moved c n = min (suc c) n

-- The result, the bytes in the buffer, and the pipe; `none` while it waits.
unfoldable pub read_buffer : List Moved → ℕ → List ℕ → Option (ℤ × List ℕ × List ℕ)
read_buffer calls zero pipe = some (pos 0, [], pipe)
read_buffer [] (suc n) pipe = none
read_buffer (failed ∷ calls) (suc n) pipe = some (minus_one, [], pipe)
read_buffer (ready c ∷ calls) (suc n) pipe =
    let k = moved c (suc n) in
    elim (read_buffer calls (suc n - k) (drop k pipe)) [
      | none ↦ none
      | some (ret, bytes, rest) ↦ some (ret, take k pipe ++ bytes, rest)
    ]

-- The result, and the pipe with what was written behind it; `none` while it waits, or where a call of
-- write is given bytes behind the end of the buffer.
unfoldable pub write_buffer : List Moved → ℕ → List ℕ → List ℕ → Option (ℤ × List ℕ)
write_buffer calls zero buf pipe = some (pos 0, pipe)
write_buffer [] (suc n) buf pipe = none
write_buffer (failed ∷ calls) (suc n) buf pipe =
    if leb (suc n) (length buf) then some (minus_one, pipe) else none
write_buffer (ready c ∷ calls) (suc n) buf pipe =
    let k = moved c (suc n) in
    let rest = write_buffer calls (suc n - k) (drop k buf) (pipe ++ take k buf) in
    if leb (suc n) (length buf) then rest else none

-- No call fails.
abbrev pub AllReady : List Moved → Type 0
AllReady [] = Unit {0}
AllReady (failed ∷ calls) = ⊥
AllReady (ready c ∷ calls) = AllReady calls

take-nil : {A : Type 0} (n : ℕ) → take {A = A} n [] ≡ []
take-nil zero = refl
take-nil (suc n) = refl

drop-nil : {A : Type 0} (n : ℕ) → drop {A = A} n [] ≡ []
drop-nil zero = refl
drop-nil (suc n) = refl

take-take-drop :
    {A : Type 0} (k n : ℕ) (xs : List A) → take k xs ++ take n (drop k xs) ≡ take (k + n) xs
take-take-drop zero n xs = ap (λ m. take m xs) (omega arith)
take-take-drop (suc k) n [] = take-nil n ∙ sym (take-nil (suc k + n))
take-take-drop (suc k) n (x ∷ xs) =
    ap (λ r. x ∷ r) (take-take-drop k n xs)
    ∙ ap (λ m. take m (x ∷ xs)) {x = suc (k + n)} (omega arith)

drop-drop : {A : Type 0} (k n : ℕ) (xs : List A) → drop n (drop k xs) ≡ drop (k + n) xs
drop-drop zero n xs = ap (λ m. drop m xs) (omega arith)
drop-drop (suc k) n [] = drop-nil n ∙ sym (drop-nil (suc k + n))
drop-drop (suc k) n (x ∷ xs) =
    drop-drop k n xs ∙ ap (λ m. drop m (x ∷ xs)) {x = suc (k + n)} (omega arith)

append_nil : {A : Type 0} (xs : List A) → xs ++ [] ≡ xs
append_nil [] = refl
append_nil (x ∷ xs) = ap (λ r. x ∷ r) (append_nil xs)

-- If no call of read fails, each moves at least one byte and there are results for as many calls
-- as bytes are asked for, read_buffer returns 0, puts exactly the first bytes of the pipe into the
-- buffer and leaves the others in the pipe.
pub read_buffer-exact :
    (calls : List Moved) (n : ℕ) (pipe : List ℕ)
    → AllReady calls
    → n ≤ length calls
    → read_buffer calls n pipe ≡ some (pos 0, take n pipe, drop n pipe)
unfolding read_buffer
read_buffer-exact calls zero pipe all le = refl
read_buffer-exact [] (suc n) pipe all le = absurd (omega arith)
read_buffer-exact (failed ∷ calls) (suc n) pipe all le = absurd all
read_buffer-exact (ready c ∷ calls) (suc n) pipe all le =
    let k : ℕ = moved c (suc n) in
    rw (read_buffer-exact calls (suc n - k) (drop k pipe) all (omega arith), read_buffer)
      (ap₂ (λ xs ys. some (pos 0, xs, ys))
        (take-take-drop k (suc n - k) pipe ∙ ap (λ m. take m pipe) {y = suc n} (omega arith))
        (drop-drop k (suc n - k) pipe ∙ ap (λ m. drop m pipe) {y = suc n} (omega arith)))

-- If no call of write fails, each moves at least one byte, there are results for as many calls as
-- bytes are given, and these are no more than the buffer has, write_buffer returns 0 and has put
-- exactly these bytes of the buffer behind what was in the pipe.
pub write_buffer-exact :
    (calls : List Moved) (n : ℕ) (buf pipe : List ℕ)
    → AllReady calls
    → n ≤ length calls
    → n ≤ length buf
    → write_buffer calls n buf pipe ≡ some (pos 0, pipe ++ take n buf)
unfolding write_buffer
write_buffer-exact calls zero buf pipe all le fit =
    ap (λ r. some (pos 0, r)) (sym (append_nil pipe))
write_buffer-exact [] (suc n) buf pipe all le fit = absurd (omega arith)
write_buffer-exact (failed ∷ calls) (suc n) buf pipe all le fit = absurd all
write_buffer-exact (ready c ∷ calls) (suc n) buf pipe all le fit =
    let k : ℕ = moved c (suc n) in
    let inside : leb (suc n) (length buf) ≡ true = ground arith in
    rw (inside, write_buffer)
      (write_buffer-exact calls (suc n - k) (drop k buf) (pipe ++ take k buf) all (omega arith)
          (omega (arith, length-drop k buf, fit))
        ∙ ap (λ r. some (pos 0, r))
            (append_assoc pipe (take k buf) (take (suc n - k) (drop k buf))
              ∙ ap (λ r. pipe ++ r)
                  (take-take-drop k (suc n - k) buf
                    ∙ ap (λ m. take m buf) {y = suc n} (omega arith))))
