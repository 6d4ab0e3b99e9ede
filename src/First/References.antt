-- ===== src/First/References.antt =====
-- The block of references of a file in parte-1/fs/operations.c.
use tecnicofs.Base.{
  ℕ, zero, suc, ◌+◌, ◌-◌, ◌*◌, ◌≤◌, ◌<◌, ◌≡◌, ◌∙◌, ap, refl, arith, ◌⊎◌, inl, inr, Bool-cases, ltb,
  leb, if◌then◌else◌, none, some, ℤ, pos, minus_one, unsigned32,
}
use tecnicofs.Memory.{Memory, store_int, byte_of}
use tecnicofs.Memory.Blocks.{write_bytes_in, write_bytes_out}
use tecnicofs.Fs.State.{block_size, data_blocks, fs_data_size}
use tecnicofs.First.State.{State, Outcome, undefined, done, with_data}
use tecnicofs.First.Blocks.{data_block_alloc, data_block_get}
use tecnicofs.First.Operations.Write.{
  Located, set_indirect, clear_references, cleared_references, reference_block,
}
use tecnicofs.First.Sound.{data_block_get-valid}

byte_of-minus_one : (k : ℕ) → k < 4 → byte_of (unsigned32 minus_one) k ≡ 255
unfolding byte_of
byte_of-minus_one zero lt = refl
byte_of-minus_one (suc zero) lt = refl
byte_of-minus_one (suc (suc zero)) lt = refl
byte_of-minus_one (suc (suc (suc zero))) lt = refl
byte_of-minus_one (suc (suc (suc (suc k)))) lt = absurd (omega arith)

store_int-minus_one : (m : Memory) (a x : ℕ) → a ≤ x → x < a + 4 → store_int m a minus_one x ≡ 255
unfolding store_int
store_int-minus_one m a x lo hi =
    write_bytes_in m a 4 (byte_of (unsigned32 minus_one)) (x - a) x (omega arith) (omega arith)
    ∙ byte_of-minus_one (x - a) (omega arith)

-- Outside the references nothing changes.
clear_references-out :
    (n a x : ℕ) (m : Memory) → (x < a) ⊎ (a + 4 * n ≤ x) → clear_references n a m x ≡ m x
unfolding clear_references store_int
clear_references-out zero a x m out = refl
clear_references-out (suc n) a x m out =
    clear_references-out n (a + 4) x (store_int m a minus_one) (ground (arith, out))
    ∙ write_bytes_out m a 4 (byte_of (unsigned32 minus_one)) x (ground (arith, out))

clear_references-in :
    (n a x : ℕ) (m : Memory) → a ≤ x → x < a + 4 * n → clear_references n a m x ≡ 255
unfolding clear_references
clear_references-in zero a x m lo hi = absurd (omega arith)
clear_references-in (suc n) a x m lo hi = elim (Bool-cases (ltb x (a + 4))) [
  | inl first ↦
      clear_references-out n (a + 4) x (store_int m a minus_one) (ground arith)
      ∙ store_int-minus_one m a x lo (ground arith)
  | inr later ↦
      clear_references-in n (a + 4) x (store_int m a minus_one) (ground arith) (omega arith)
]

-- The part behind the allocation.
abbrev with_references : ℕ → ℤ × State → Outcome Located
with_references i r =
    let s'' = set_indirect i r.0 r.1 in
    elim (data_block_get r.0) [
      | none ↦ done (none, s'')
      | some a ↦
          if leb (a + 4 * cleared_references) fs_data_size
          then done (some a, with_data s'' (clear_references cleared_references a s''.fs_data))
          else undefined
    ]

reference_block-new :
    (s : State) (i : ℕ)
    → (s.inode_table i).i_indirect_data_block ≡ minus_one
    → reference_block i s ≡ with_references i (data_block_alloc s)
unfolding reference_block
reference_block-new s i e = rw (e, reference_block) refl

-- In parte-1, when a file gets a block of references, which is the block b, either 4056 bytes from
-- the start of the block on become 255, which is the block and most of the three behind it, and no
-- other byte changes; or these bytes reach over the end of the memory, and it is undefined
-- behaviour.
pub reference_block_overruns :
    (s s' : State) (i b : ℕ)
    → (s.inode_table i).i_indirect_data_block ≡ minus_one
    → data_block_alloc s ≡ (pos b, s')
    → b < data_blocks
    → ((b * block_size + 4056 ≤ fs_data_size)
        × (t : State) × (reference_block i s ≡ done (some (b * block_size), t))
        × ((x : ℕ) → b * block_size ≤ x → x < b * block_size + 4056 → t.fs_data x ≡ 255)
        × ((x : ℕ)
            → (x < b * block_size) ⊎ (b * block_size + 4056 ≤ x)
            → t.fs_data x ≡ s'.fs_data x))
      ⊎ ((fs_data_size < b * block_size + 4056) × (reference_block i s ≡ undefined))
reference_block_overruns s s' i b none_yet e bound =
    let a : ℕ = b * block_size in
    let start = reference_block-new s i none_yet ∙ ap (with_references i) e in
    let block = data_block_get-valid b bound in
    elim (Bool-cases (leb (a + 4 * cleared_references) fs_data_size)) [
      | inl fits ↦ inl (
        ground arith,
        with_data (set_indirect i (pos b) s') (clear_references cleared_references a s'.fs_data),
        start ∙ rw (block, fits, with_references) refl,
        λ x lo hi. clear_references-in cleared_references a x s'.fs_data lo hi,
        λ x out. clear_references-out cleared_references a x s'.fs_data out,
      )
      | inr over ↦ inr (ground arith, start ∙ rw (block, over, with_references) refl)
    ]
