-- ===== src/Memory/Strings.antt =====
-- Names in memory: what strncpy stores, strncmp finds again.
use tecnicofs.Base.{
  ℕ, zero, suc, ◌+◌, ◌<◌, ◌≡◌, refl, ap, ◌∙◌, Bool, true, false, ◌&&◌, List, [], ◌∷◌, arith, length,
  get_or, take, ◌↔◌, ◌==◌,
}
use tecnicofs.Memory.{Memory, strncmp_eq}
use tecnicofs.Memory.Blocks.{Agree}

-- The bytes of a C string: none is the terminator.
abbrev pub IsString : List ℕ → Type 0
IsString [] = Unit {0}
IsString (c ∷ s) = (0 < c) × IsString s

-- The first `n` bytes of two strings, terminators included, are the same.
abbrev pub same_prefix : ℕ → List ℕ → List ℕ → Bool
same_prefix zero s t = true
same_prefix (suc n) [] [] = true
same_prefix (suc n) [] (d ∷ t) = false
same_prefix (suc n) (c ∷ s) [] = false
same_prefix (suc n) (c ∷ s) (d ∷ t) = c == d && same_prefix n s t

-- The string `s` stands at `a`, with its terminator, as far as `n` bytes go.
abbrev pub Holds : Memory → ℕ → List ℕ → ℕ → Type 0
Holds m a s n = (k : ℕ) → k < n → m (a + k) ≡ get_or s k 0

-- A comparison sees only the bytes that it may read.
pub strncmp_eq-Agree :
    (m m' : Memory) (a : ℕ) (s : List ℕ) (n : ℕ)
    → Agree m m' a n
    → strncmp_eq m a s n ≡ strncmp_eq m' a s n
unfolding strncmp_eq
strncmp_eq-Agree m m' a s zero h = refl
strncmp_eq-Agree m m' a [] (suc n) h = ap (λ b. b == 0) (h a (omega arith) (omega arith))
strncmp_eq-Agree m m' a (c ∷ s) (suc n) h = ground (
  arith,
  h a (omega arith) (omega arith),
  strncmp_eq-Agree m m' (a + 1) s n (λ x p q. h x (omega arith) (omega arith)),
)

here : (m : Memory) (a : ℕ) (s : List ℕ) (n : ℕ) → Holds m a s (suc n) → m a ≡ get_or s 0 0
here m a s n h = ap m (omega arith) ∙ h 0 (omega arith)

-- Comparing with memory that holds a string compares the two strings.
pub strncmp_eq-Holds :
    (m : Memory) (a : ℕ) (s t : List ℕ) (n : ℕ)
    → IsString s
    → IsString t
    → Holds m a s n
    → strncmp_eq m a t n ≡ same_prefix n s t
unfolding strncmp_eq
strncmp_eq-Holds m a s t zero hs ht h = refl
strncmp_eq-Holds m a [] [] (suc n) hs ht h = ground (arith, here m a [] n h)
strncmp_eq-Holds m a (c ∷ s) [] (suc n) hs ht h = ground (arith, here m a (c ∷ s) n h)
strncmp_eq-Holds m a [] (d ∷ t) (suc n) hs ht h = ground (arith, here m a [] n h)
strncmp_eq-Holds m a (c ∷ s) (d ∷ t) (suc n) hs ht h = ground (
  arith,
  here m a (c ∷ s) n h,
  strncmp_eq-Holds m (a + 1) s t n hs.1 ht.1 (λ k p. ap m (omega arith) ∙ h (suc k) (omega arith)),
)

-- A short string has the same prefix as itself alone.
pub same_prefix_iff : (n : ℕ) (s t : List ℕ) → length s < n → (same_prefix n s t ≡ true) ↔ (s ≡ t)
same_prefix_iff zero s t h = absurd (omega arith)
same_prefix_iff (suc n) [] [] h = (λ _. refl, λ _. refl)
same_prefix_iff (suc n) [] (d ∷ t) h = (λ e. absurd (cc), λ e. absurd (cc))
same_prefix_iff (suc n) (c ∷ s) [] h = (λ e. absurd (cc), λ e. absurd (cc))
same_prefix_iff (suc n) (c ∷ s) (d ∷ t) h =
    let rest = same_prefix_iff n s t (omega arith) in
    (λ e. ground (arith, rest.0), λ e. ground (arith, rest.1))

pub IsString-take : (n : ℕ) (s : List ℕ) → IsString s → IsString (take n s)
IsString-take zero s h = tt
IsString-take (suc n) [] h = tt
IsString-take (suc n) (c ∷ s) h = (h.0, IsString-take n s h.1)

-- `strncpy` of one byte less than the field, with a terminator behind, stores the cut string.
pub get_or-take : (n k : ℕ) (s : List ℕ) → k < n → get_or (take n s) k 0 ≡ get_or s k 0
get_or-take zero k s h = absurd (omega arith)
get_or-take (suc n) k [] h = refl
get_or-take (suc n) zero (c ∷ s) h = refl
get_or-take (suc n) (suc k) (c ∷ s) h = get_or-take n k s (omega arith)

pub get_or-take_end : (n : ℕ) (s : List ℕ) → get_or (take n s) n 0 ≡ 0
get_or-take_end zero s = refl
get_or-take_end (suc n) [] = refl
get_or-take_end (suc n) (c ∷ s) = get_or-take_end n s
