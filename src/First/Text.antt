-- ===== src/First/Text.antt =====
-- The bytes of a file of parte-1, described from the layout of its blocks and not by the code: ten
-- numbers of blocks stand in the node, the others as ints of four bytes in the block of references.
use tecnicofs.Base.{
  ℕ, ◌+◌, ◌-◌, ◌*◌, ◌/◌, ◌%◌, ◌≤◌, ◌<◌, ◌≡◌, ◌∙◌, ap, refl, arith, inl, inr, Bool-cases, true, List,
  some, ltb, leb, if◌then◌else◌, ℤ, pos_part,
}
use tecnicofs.Memory.{Memory, read_bytes, load_int}
use tecnicofs.Fs.State.{fs_data_size}
use tecnicofs.Fs.Blocks.{valid_block_number}
use tecnicofs.First.State.{State, done}
use tecnicofs.First.Blocks.{data_block_get}
use tecnicofs.First.Operations.Read.{read_block}
use tecnicofs.First.Content.{size_of, file_bytes, Stored, base_of, read_bytes-same}

-- The number of the block `k` of the file `i`.
abbrev pub block_number : State → ℕ → ℕ → ℤ
block_number s i k =
    if ltb k 10
    then (s.inode_table i).i_data_block k
    else load_int s.fs_data (pos_part (s.inode_table i).i_indirect_data_block * 1024 + (k - 10) * 4)

-- The byte `x` of the file `i`.
abbrev pub text_bytes : State → ℕ → Memory
text_bytes s i x = s.fs_data (pos_part (block_number s i (x / 1024)) * 1024 + x % 1024)

-- The bytes of the file `i`.
abbrev pub text : State → ℕ → List ℕ
text s i = read_bytes (text_bytes s i) 0 (size_of s i)

-- The blocks of the file below its size are numbers of blocks, and so is the block of references of
-- a file that needs it, in which the references of these blocks fit.
abbrev pub HasBlocks : State → ℕ → Type 0
HasBlocks s i =
    (k : ℕ)
    → k * 1024 < size_of s i
    → (valid_block_number (block_number s i k) ≡ true)
      × (10 ≤ k
          → (valid_block_number (s.inode_table i).i_indirect_data_block ≡ true)
            × (pos_part (s.inode_table i).i_indirect_data_block * 1024 + (k - 10) * 4 + 4
                ≤ fs_data_size))

get_block : (z : ℤ) → valid_block_number z ≡ true → data_block_get z ≡ some (pos_part z * 1024)
unfolding data_block_get
get_block z ok = rw ok refl

read_block-number :
    (s : State) (i k : ℕ)
    → HasBlocks s i
    → k * 1024 < size_of s i
    → read_block i k s ≡ done (some (pos_part (block_number s i k) * 1024))
unfolding read_block
read_block-number s i k has lt =
    let (ok, far) = has k lt in
    let indirect : ℤ = (s.inode_table i).i_indirect_data_block in
    elim (Bool-cases (ltb k 10)) [
      | inl near ↦
          rw (near, read_block)
            (ap (λ b. done b) (get_block ((s.inode_table i).i_data_block k) (rw near at ok)))
      | inr behind ↦
          let (there, fits) = far (ground arith) in
          let base = get_block indirect there in
          let at : pos_part indirect * 1024 + 4 * (k - 10)
              ≡ pos_part indirect * 1024 + (k - 10) * 4 =
            omega arith in
          let inside : leb (pos_part indirect * 1024 + 4 * (k - 10) + 4) fs_data_size ≡ true =
            ground arith in
          rw (behind, base, inside, read_block)
            (ap (λ a. done (data_block_get (load_int s.fs_data a))) at
              ∙ ap (λ b. done b)
                  (get_block (load_int s.fs_data (pos_part indirect * 1024 + (k - 10) * 4))
                    (rw behind at ok)))
    ]

block-end : (z : ℤ) → valid_block_number z ≡ true → pos_part z * 1024 + 1024 ≤ fs_data_size
block-end z ok = ground arith

pub HasBlocks-Stored : (s : State) (i : ℕ) → HasBlocks s i → Stored s i
HasBlocks-Stored s i has k lt =
    let (ok, far) = has k lt in
    (
      pos_part (block_number s i k) * 1024,
      read_block-number s i k has lt,
      block-end (block_number s i k) ok,
    )

-- The code reads the byte that the layout names.
pub file_bytes-text :
    (s : State) (i x : ℕ) → HasBlocks s i → x < size_of s i → file_bytes s i x ≡ text_bytes s i x
file_bytes-text s i x has lt =
    ap (λ r. s.fs_data (base_of r + x % 1024))
      (read_block-number s i (x / 1024) has (omega (arith, lt)))

pub read_bytes-text :
    (s : State) (i o n : ℕ)
    → HasBlocks s i
    → o + n ≤ size_of s i
    → read_bytes (file_bytes s i) o n ≡ read_bytes (text_bytes s i) o n
read_bytes-text s i o n has le =
    read_bytes-same (file_bytes s i) (text_bytes s i) o o n
      (λ x lt. file_bytes-text s i (o + x) has (omega arith))
