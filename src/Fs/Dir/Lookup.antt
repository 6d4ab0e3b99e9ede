-- ===== src/Fs/Dir/Lookup.antt =====
-- The loops of `find_in_dir` and `add_dir_entry` of parte-2/fs/state.c, against each other.
use mathlib.Core.Bool.{false≢true}
use tecnicofs.Base.{
  ℕ, zero, suc, ◌+◌, ◌≤◌, ◌<◌, ◌≡◌, refl, arith, ap, ◌∙◌, sym, List, true, false, Option, none,
  some, ◌⊎◌, inl, inr, Bool-cases, ℤ, minus_one, IsInt, is_minus_one,
}
use tecnicofs.Memory.{Memory, load_int}
use tecnicofs.Memory.Strings.{IsString}
use native.Mathlib.Decide.{ℕ_discrete}
use tecnicofs.Fs.Inodes.{d_inumber_at}
use tecnicofs.Fs.Dir.{fill_entry, add_entry_from, entry_matches, find_from}
use tecnicofs.Fs.Dir.Entries.{
  answers, load_int-fill_entry_self, load_int-fill_entry_ne, entry_matches-fill_entry_self,
  entry_matches-fill_entry_ne,
}

-- The entry `k` of the directory is empty.
abbrev pub IsEmpty : Memory → ℕ → ℕ → Type 0
IsEmpty m dir k = is_minus_one (load_int m (d_inumber_at dir k)) ≡ true

-- What the loop of `add_dir_entry` does: it fills the first empty entry, if there is one.
pub data Adds (n i dir : ℕ) (z : ℤ) (name : List ℕ) (m : Memory) : Option Memory → Type 0 where
  fills :
      (j : ℕ) {r : Option Memory}
      → i ≤ j
      → j < i + n
      → IsEmpty m dir j
      → r ≡ some (fill_entry m dir j z name)
      → Adds n i dir z name m r
  no_room :
      {r : Option Memory}
      → ((k : ℕ) → i ≤ k → k < i + n → is_minus_one (load_int m (d_inumber_at dir k)) ≡ false)
      → r ≡ none
      → Adds n i dir z name m r

later :
    {n i dir : ℕ} {z : ℤ} {name : List ℕ} {m : Memory} {r : Option Memory}
    → is_minus_one (load_int m (d_inumber_at dir i)) ≡ false
    → Adds n (i + 1) dir z name m r
    → Adds (suc n) i dir z name m r
later e (fills j lo hi q p) = fills j (omega arith) (omega arith) q p
later {n} {i} {dir} {z} {name} {m} e (no_room all p) =
    no_room
      (λ k lo hi. elim (ℕ_discrete k i) [
        | yes q ↦ rw q e
        | no ne ↦ all k (omega arith) (omega arith)
      ])
      p

pub add_entry_from-Adds :
    (n i dir : ℕ) (z : ℤ) (name : List ℕ) (m : Memory)
    → Adds n i dir z name m (add_entry_from n i dir z name m)
unfolding add_entry_from
add_entry_from-Adds zero i dir z name m = no_room (λ k lo hi. absurd (omega arith)) refl
add_entry_from-Adds (suc n) i dir z name m =
    elim (Bool-cases (is_minus_one (load_int m (d_inumber_at dir i)))) [
      | inl e ↦ fills i (omega arith) (omega arith) e (rw (e, add_entry_from))
      | inr e ↦ rw (e, add_entry_from) (later e (add_entry_from-Adds n (i + 1) dir z name m))
    ]

module _ (dir : ℕ) (t : List ℕ) where
  -- A search depends on the tests of the entries, and on the number of the one that is found.
  pub find_from-cong :
      (n i : ℕ) (m m' : Memory)
      → ((k : ℕ) → entry_matches m' dir k t ≡ entry_matches m dir k t)
      → ((k : ℕ)
          → entry_matches m dir k t ≡ true
          → load_int m' (d_inumber_at dir k) ≡ load_int m (d_inumber_at dir k))
      → find_from n i dir t m' ≡ find_from n i dir t m
  unfolding find_from
  find_from-cong zero i m m' tests numbers = refl
  find_from-cong (suc n) i m m' tests numbers = elim (Bool-cases (entry_matches m dir i t)) [
    | inl e ↦ rw (tests i ∙ e, e, numbers i e, find_from)
    | inr e ↦ rw (tests i ∙ e, e, find_from) (find_from-cong n (i + 1) m m' tests numbers)
  ]

  -- An entry that answers has a number.
  pub entry_matches-number :
      (m : Memory) (k : ℕ)
      → entry_matches m dir k t ≡ true
      → is_minus_one (load_int m (d_inumber_at dir k)) ≡ false
  unfolding entry_matches
  entry_matches-number m k e = ground arith

  pub empty-entry_matches : (m : Memory) (k : ℕ) → IsEmpty m dir k → entry_matches m dir k t ≡ false
  unfolding entry_matches
  empty-entry_matches m k e = rw e

  find_from-hit :
      (n i : ℕ) (m : Memory)
      → entry_matches m dir i t ≡ true
      → find_from (suc n) i dir t m ≡ load_int m (d_inumber_at dir i)
  unfolding find_from
  find_from-hit n i m e = rw (e, find_from)

  find_from-miss :
      (n i : ℕ) (m : Memory)
      → entry_matches m dir i t ≡ false
      → find_from (suc n) i dir t m ≡ find_from n (i + 1) dir t m
  unfolding find_from
  find_from-miss n i m e = rw (e, find_from)

  -- If nothing is found, no entry answers.
  pub find_from-none :
      (n i k : ℕ) (m : Memory)
      → find_from n i dir t m ≡ minus_one
      → i ≤ k
      → k < i + n
      → entry_matches m dir k t ≡ false
  find_from-none zero i k m e lo hi = absurd (omega arith)
  find_from-none (suc n) i k m e lo hi = elim (Bool-cases (entry_matches m dir i t)) [
    | inl q ↦ ground (arith, entry_matches-number m i q, find_from-hit n i m q)
    | inr q ↦ elim (ℕ_discrete k i) [
      | yes p ↦ rw p q
      | no ne ↦
          find_from-none n (i + 1) k m (sym (find_from-miss n i m q) ∙ e) (omega arith)
            (omega arith)
    ]
  ]

  -- A search gives -1 or the number of an entry.
  pub find_from-result :
      (n i : ℕ) (m : Memory)
      → (find_from n i dir t m ≡ minus_one)
        ⊎ ((k : ℕ) × (k < i + n)
            × (find_from n i dir t m ≡ load_int m (d_inumber_at dir k))
            × (is_minus_one (load_int m (d_inumber_at dir k)) ≡ false))
  unfolding find_from
  find_from-result zero i m = inl refl
  find_from-result (suc n) i m = elim (Bool-cases (entry_matches m dir i t)) [
    | inl q ↦ inr (i, omega arith, find_from-hit n i m q, entry_matches-number m i q)
    | inr q ↦ elim (find_from-result n (i + 1) m) [
      | inl e ↦ inl (find_from-miss n i m q ∙ e)
      | inr (k, lt, e, ok) ↦ inr (k, omega arith, find_from-miss n i m q ∙ e, ok)
    ]
  ]

  pub find_from-first :
      (n i j : ℕ) (m : Memory)
      → i ≤ j
      → j < i + n
      → ((k : ℕ) → i ≤ k → k < j → entry_matches m dir k t ≡ false)
      → entry_matches m dir j t ≡ true
      → find_from n i dir t m ≡ load_int m (d_inumber_at dir j)
  unfolding find_from
  find_from-first zero i j m lo hi before here = absurd (omega arith)
  find_from-first (suc n) i j m lo hi before here = elim (ℕ_discrete i j) [
    | yes e ↦
        let first : entry_matches m dir i t ≡ true = rw e here in
        rw (first, find_from) (ap (λ k. load_int m (d_inumber_at dir k)) e)
    | no ne ↦
        rw (before i (omega arith) (omega arith), find_from)
          (find_from-first n (i + 1) j m (omega arith) (omega arith)
            (λ k l h. before k (omega arith) h) here)
  ]

-- A file that is added under a name that no entry answers to is found under that name, and the
-- search for any name that it does not answer to gives what it gave before.
module _ (n i dir j : ℕ) (z : ℤ) (name t : List ℕ) (m : Memory) where
  pub find_from-fill_entry :
      i ≤ j
      → j < i + n
      → IsInt z
      → is_minus_one z ≡ false
      → IsString name
      → IsString t
      → answers name t ≡ true
      → find_from n i dir t m ≡ minus_one
      → find_from n i dir t (fill_entry m dir j z name) ≡ z
  find_from-fill_entry lo hi hz nz hs ht yes_it none_yet =
      find_from-first dir t n i j (fill_entry m dir j z name) lo hi
        (λ k l h.
          entry_matches-fill_entry_ne m dir j z name k t (omega arith)
          ∙ find_from-none dir t n i k m none_yet l (omega arith))
        (entry_matches-fill_entry_self m dir j z name t hz nz hs ht ∙ yes_it)
      ∙ load_int-fill_entry_self m dir j z name hz

  pub find_from-fill_entry_other :
      IsEmpty m dir j
      → IsInt z
      → is_minus_one z ≡ false
      → IsString name
      → IsString t
      → answers name t ≡ false
      → find_from n i dir t (fill_entry m dir j z name) ≡ find_from n i dir t m
  find_from-fill_entry_other empty hz nz hs ht not_it =
      let at_j : entry_matches (fill_entry m dir j z name) dir j t ≡ entry_matches m dir j t =
        entry_matches-fill_entry_self m dir j z name t hz nz hs ht
        ∙ not_it
        ∙ sym (empty-entry_matches dir t m j empty) in
      find_from-cong dir t n i m (fill_entry m dir j z name)
        (λ k. elim (ℕ_discrete k j) [
          | yes e ↦ rw e at_j
          | no ne ↦ entry_matches-fill_entry_ne m dir j z name k t ne
        ])
        (λ k hit.
          load_int-fill_entry_ne m dir j z name k
            (λ e. false≢true (sym (empty-entry_matches dir t m j empty) ∙ (rw e at hit))))
