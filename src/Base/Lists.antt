-- ===== src/Base/Lists.antt =====
-- Lists measured and indexed by native numbers, under the library's names.
use Prim.Native.Nat.{ℕ, zero, suc, ◌+◌, ◌-◌, ◌≤◌, min}
use mathlib.Core.Path.{◌≡◌, refl, ap, ◌∙◌}
use mathlib.Core.List.{List, [], ◌∷◌, ◌++◌}
use native.Mathlib.Omega.{arith}

module _ {ℓ} {A : Type ℓ} where
  abbrev pub length : List A → ℕ
  length [] = 0
  length (x ∷ xs) = suc (length xs)

  abbrev pub get_or : List A → ℕ → A → A
  get_or [] i d = d
  get_or (x ∷ xs) zero d = x
  get_or (x ∷ xs) (suc i) d = get_or xs i d

  abbrev pub take : ℕ → List A → List A
  take zero xs = []
  take (suc n) [] = []
  take (suc n) (x ∷ xs) = x ∷ take n xs

  abbrev pub drop : ℕ → List A → List A
  drop zero xs = xs
  drop (suc n) [] = []
  drop (suc n) (x ∷ xs) = drop n xs

  pub length-append : (xs ys : List A) → length (xs ++ ys) ≡ length xs + length ys
  length-append [] ys = omega arith
  length-append (x ∷ xs) ys = omega (arith, length-append xs ys)

  pub length-take : (n : ℕ) (xs : List A) → length (take n xs) ≡ min n (length xs)
  length-take zero xs = omega arith
  length-take (suc n) [] = omega arith
  length-take (suc n) (x ∷ xs) = omega (arith, length-take n xs)

  -- `ys` written over `xs` from the index `i` on, longer than `xs` if it reaches over its end.
  abbrev pub overwrite : List A → ℕ → List A → List A
  overwrite xs i ys = take i xs ++ (ys ++ drop (i + length ys) xs)

  pub take-append-drop : (n : ℕ) (xs : List A) → take n xs ++ drop n xs ≡ xs
  take-append-drop zero xs = refl
  take-append-drop (suc n) [] = refl
  take-append-drop (suc n) (x ∷ xs) = rw (take-append-drop n xs)

  pub overwrite-nil : (xs : List A) (i : ℕ) → overwrite xs i [] ≡ xs
  overwrite-nil xs i = ap (λ k. take i xs ++ drop k xs) (omega arith) ∙ take-append-drop i xs

  pub take-all : (n : ℕ) (xs : List A) → length xs ≤ n → take n xs ≡ xs
  take-all zero [] h = refl
  take-all zero (x ∷ xs) h = absurd (omega arith)
  take-all (suc n) [] h = refl
  take-all (suc n) (x ∷ xs) h = ap (λ ys. x ∷ ys) (take-all n xs (omega arith))

  take-append : (n : ℕ) (ys zs : List A) → n ≡ length ys → take n (ys ++ zs) ≡ ys
  take-append zero [] zs h = refl
  take-append zero (y ∷ ys) zs h = absurd (omega arith)
  take-append (suc n) [] zs h = absurd (omega arith)
  take-append (suc n) (y ∷ ys) zs h = ap (λ r. y ∷ r) (take-append n ys zs (omega arith))

  -- What is written is what is read back.
  pub take-drop-overwrite :
      (xs : List A) (i : ℕ) (ys : List A)
      → i ≤ length xs
      → take (length ys) (drop i (overwrite xs i ys)) ≡ ys
  take-drop-overwrite xs zero ys h = take-append (length ys) ys (drop (0 + length ys) xs) refl
  take-drop-overwrite [] (suc i) ys h = absurd (omega arith)
  take-drop-overwrite (x ∷ xs) (suc i) ys h =
      ap (λ k. take (length ys) (drop i (take i xs ++ (ys ++ drop k (x ∷ xs)))))
        {y = suc (i + length ys)} (omega arith)
      ∙ take-drop-overwrite xs i ys (omega arith)

  pub length-drop : (n : ℕ) (xs : List A) → length (drop n xs) ≡ length xs - n
  length-drop zero xs = omega arith
  length-drop (suc n) [] = omega arith
  length-drop (suc n) (x ∷ xs) = omega (arith, length-drop n xs)

  pub append_nil : (xs : List A) → xs ++ [] ≡ xs
  append_nil [] = refl
  append_nil (x ∷ xs) = ap (λ r. x ∷ r) (append_nil xs)

  pub append_assoc : (xs ys zs : List A) → (xs ++ ys) ++ zs ≡ xs ++ (ys ++ zs)
  append_assoc [] ys zs = refl
  append_assoc (x ∷ xs) ys zs = ap (λ r. x ∷ r) (append_assoc xs ys zs)

  pub get_or-drop : (n k : ℕ) (xs : List A) (d : A) → get_or xs (n + k) d ≡ get_or (drop n xs) k d
  get_or-drop zero k xs d = ap (λ i. get_or xs i d) (omega arith)
  get_or-drop (suc n) zero [] d = refl
  get_or-drop (suc n) (suc k) [] d = refl
  get_or-drop (suc n) k (x ∷ xs) d =
      ap (λ i. get_or (x ∷ xs) i d) {y = suc (n + k)} (omega arith) ∙ get_or-drop n k xs d
