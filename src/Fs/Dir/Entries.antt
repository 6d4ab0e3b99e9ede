-- ===== src/Fs/Dir/Entries.antt =====
-- One entry of a directory of parte-2/fs/state.c: what the three writes of `add_dir_entry` leave in
-- the bytes of that entry, and in those of the others.
use tecnicofs.Base.{
  ℕ, ◌+◌, ◌-◌, ◌≤◌, ◌<◌, ◌≡◌, ◌≢◌, refl, arith, ap, ◌∙◌, sym, List, Bool, false, ◌⊎◌, get_or, take,
  ℤ, IsInt, is_minus_one,
}
use native.Mathlib.Decide.{dec_lt}
use tecnicofs.Memory.{Memory, write_bytes, strncpy, strncmp_eq, load_int, store_int}
use tecnicofs.Memory.Blocks.{write_bytes_in, write_bytes_out}
use tecnicofs.Memory.Ints.{load_int-store_int, load_int-write_bytes_out, load_int-Agree}
use tecnicofs.Memory.Strings.{
  IsString, IsString-take, same_prefix, Holds, strncmp_eq-Agree, strncmp_eq-Holds, get_or-take,
  get_or-take_end,
}
use tecnicofs.Fs.State.{dir_entry_size, max_file_name}
use tecnicofs.Fs.Inodes.{d_inumber_at}
use tecnicofs.Fs.Dir.{d_name_at, fill_entry, entry_matches}

-- Does the entry of a file with the name `s` answer to the name `t`? The field cuts `s` at 39 bytes.
abbrev pub answers : List ℕ → List ℕ → Bool
answers s t = same_prefix max_file_name (take (max_file_name - 1) s) t

module _ (m : Memory) (dir j : ℕ) (z : ℤ) (name : List ℕ) where
  -- The other bytes stay.
  pub fill_entry_out :
      (x : ℕ)
      → (x < d_name_at dir j) ⊎ (d_name_at dir j + dir_entry_size ≤ x)
      → fill_entry m dir j z name x ≡ m x
  unfolding fill_entry store_int strncpy write_bytes
  fill_entry_out x h = ground arith

  pub load_int-fill_entry_self :
      IsInt z → load_int (fill_entry m dir j z name) (d_inumber_at dir j) ≡ z
  unfolding fill_entry strncpy
  load_int-fill_entry_self h =
      let m1 : Memory = store_int m (d_inumber_at dir j) z in
      let m2 : Memory =
        write_bytes m1 (d_name_at dir j) (max_file_name - 1) (λ k. get_or name k 0) in
      load_int-write_bytes_out m2 (d_name_at dir j + (max_file_name - 1)) 1 (λ _. 0)
        (d_inumber_at dir j) (omega arith)
      ∙ load_int-write_bytes_out m1 (d_name_at dir j) (max_file_name - 1) (λ k. get_or name k 0)
          (d_inumber_at dir j) (omega arith)
      ∙ load_int-store_int m (d_inumber_at dir j) z h

  pub load_int-fill_entry_ne :
      (k : ℕ)
      → k ≢ j
      → load_int (fill_entry m dir j z name) (d_inumber_at dir k) ≡ load_int m (d_inumber_at dir k)
  load_int-fill_entry_ne k ne =
      load_int-Agree (fill_entry m dir j z name) m (d_inumber_at dir k)
        (λ x p q. fill_entry_out x (omega arith))

  pub fill_entry-Holds :
      Holds
        (fill_entry m dir j z name)
        (d_name_at dir j)
        (take (max_file_name - 1) name)
        max_file_name
  unfolding fill_entry strncpy
  fill_entry-Holds k lt = elim (dec_lt k (max_file_name - 1)) [
    | yes lt39 ↦
        let m1 : Memory = store_int m (d_inumber_at dir j) z in
        write_bytes_out (write_bytes m1 (d_name_at dir j) 39 (λ i. get_or name i 0))
          (d_name_at dir j + (max_file_name - 1)) 1 (λ _. 0) (d_name_at dir j + k) (omega arith)
        ∙ write_bytes_in m1 (d_name_at dir j) (max_file_name - 1) (λ i. get_or name i 0) k
            (d_name_at dir j + k) lt39 refl
        ∙ sym (get_or-take (max_file_name - 1) k name lt39)
    | no last ↦
        let m1 : Memory = store_int m (d_inumber_at dir j) z in
        let e : k ≡ max_file_name - 1 = omega arith in
        write_bytes_in (write_bytes m1 (d_name_at dir j) 39 (λ i. get_or name i 0))
          (d_name_at dir j + (max_file_name - 1)) 1 (λ _. 0) 0 (d_name_at dir j + k) (omega arith)
          (omega arith)
        ∙ sym (
            ap (λ i. get_or (take (max_file_name - 1) name) i 0) e
            ∙ get_or-take_end (max_file_name - 1) name)
  ]

  pub entry_matches-fill_entry_self :
      (t : List ℕ)
      → IsInt z
      → is_minus_one z ≡ false
      → IsString name
      → IsString t
      → entry_matches (fill_entry m dir j z name) dir j t ≡ answers name t
  unfolding entry_matches
  entry_matches-fill_entry_self t hz nz hs ht =
      let m' : Memory = fill_entry m dir j z name in
      let number : load_int m' (d_inumber_at dir j) ≡ z = load_int-fill_entry_self hz in
      let text : strncmp_eq m' (d_name_at dir j) t max_file_name ≡ answers name t =
        strncmp_eq-Holds m' (d_name_at dir j) (take (max_file_name - 1) name) t max_file_name
          (IsString-take (max_file_name - 1) name hs) ht fill_entry-Holds in
      rw (number, nz, text)

  pub entry_matches-fill_entry_ne :
      (k : ℕ) (t : List ℕ)
      → k ≢ j
      → entry_matches (fill_entry m dir j z name) dir k t ≡ entry_matches m dir k t
  unfolding entry_matches
  entry_matches-fill_entry_ne k t ne = rw (
    load_int-fill_entry_ne k ne,
    strncmp_eq-Agree (fill_entry m dir j z name) m (d_name_at dir k) t max_file_name
        (λ x p q. fill_entry_out x (omega arith)),
  )
