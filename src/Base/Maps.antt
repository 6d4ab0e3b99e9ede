-- ===== src/Base/Maps.antt =====
-- C arrays as functions from the index, and the number of entries below a bound that pass a test.
use Prim.Native.Nat.{ℕ, zero, suc, ◌+◌, ◌<◌, ◌≤◌}
use mathlib.Core.Path.{◌≡◌, refl}
use mathlib.Core.Logic.{◌≢◌}
use mathlib.Core.Bool.{Bool}
use native.Mathlib.Omega.{arith}
use tecnicofs.Base.Tests.{◌==◌, if◌then◌else◌}

abbrev pub update {ℓ} : {A : Type ℓ} → (ℕ → A) → ℕ → A → ℕ → A
update f i a j = if i == j then a else f j

pub update_here : {A : Type 0} (f : ℕ → A) (i : ℕ) (a : A) → update f i a i ≡ a
update_here f i a = ground arith

pub update_other : {A : Type 0} (f : ℕ → A) (i j : ℕ) (a : A) → j ≢ i → update f i a j ≡ f j
update_other f i j a ne = ground arith

module _ {ℓ} {A : Type ℓ} (p : A → Bool) where
  -- how many of the first `n` entries pass the test
  unfoldable pub count_below : ℕ → (ℕ → A) → ℕ
  count_below zero f = 0
  count_below (suc n) f = (if p (f n) then 1 else 0) + count_below n f

  count_below-update_out :
      (n : ℕ) (f : ℕ → A) (i : ℕ) (a : A) → n ≤ i → count_below n (update f i a) ≡ count_below n f
  unfolding count_below
  count_below-update_out zero f i a h = refl
  count_below-update_out (suc n) f i a h = ground (arith, count_below-update_out n f i a)

  -- Only the entry that is written can change the count.
  pub count_below-update :
      (n : ℕ) (f : ℕ → A) (i : ℕ) (a : A)
      → i < n
      → count_below n (update f i a) + (if p (f i) then 1 else 0)
        ≡ count_below n f + (if p a then 1 else 0)
  unfolding count_below
  count_below-update zero f i a h = absurd (omega arith)
  count_below-update (suc n) f i a h =
      ground (arith, count_below-update n f i a, count_below-update_out n f i a)
