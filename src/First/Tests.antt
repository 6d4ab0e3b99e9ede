-- ===== src/First/Tests.antt =====
-- The theorems on parte-1 applied at concrete inputs.
use tecnicofs.Base.{
  ℕ, ◌+◌, ◌-◌, ◌*◌, ◌<◌, ◌≡◌, refl, arith, ◌⊎◌, List, [], ◌∷◌, get_or, pos, minus_one, some, update,
  ◌≤◌, false, Bool-cases, inl, inr, ◌==◌, subst, true,
}
use tecnicofs.Memory.{read_bytes}
use tecnicofs.Memory.Blocks.{length-read_bytes}
use tecnicofs.Fs.State.{taken, block_size, fs_data_size}
use tecnicofs.Fs.Open.{path_of}
use tecnicofs.First.Text.{text, text_bytes, block_number, HasBlocks}
use tecnicofs.Fs.Blocks.{valid_block_number}
use tecnicofs.First.State.{State, stuck, done, undefined}
use tecnicofs.First.Blocks.{data_block_alloc}
use tecnicofs.First.Operations.{tfs_close, tfs_open, tfs_destroy_after_all_closed}
use tecnicofs.First.Operations.Write.{tfs_write, reference_block}
use tecnicofs.First.Operations.Read.{tfs_read, set_offset}
use tecnicofs.First.Operations.Copy.{tfs_copy_to_external_fs}
use tecnicofs.First.Locked.{with_locks}
use tecnicofs.First.Reads.{tfs_read-reads}
use tecnicofs.First.Writes.{Writing, tfs_write-Writing}
use tecnicofs.First.Opens.{opened_at}
use tecnicofs.First.Copies.{used_entry, tfs_copy_to_external_fs-copies}
use tecnicofs.First.RoundTrip.{GivenBack, tfs_read-tfs_write}
use tecnicofs.First.Limits.{
  empty_write_keeps_locks, unaligned_write_spills, failed_copy_keeps_handle,
}
use tecnicofs.Fs.Blocks.{first_free}
use tecnicofs.First.Truncation.{tfs_open-whole_blocks}
use tecnicofs.First.References.{reference_block_overruns}
use tecnicofs.First.Sample.{
  sized, sample, sample-Ready, sized-Sound, sample-Sound, sized-Unlocked, out, out-Works, found,
}

tfs_write-Writing_example :
    Writing sample 2 1 2 (7 ∷ 8 ∷ []) (tfs_write (pos 2) (7 ∷ 8 ∷ []) 2 sample)
tfs_write-Writing_example =
    tfs_write-Writing sample 2 1 2 (7 ∷ 8 ∷ []) (sample-Ready 2 (omega arith)) sample-Sound
      (omega arith) (omega arith) (omega arith) (omega arith) (λ e. absurd (omega arith))

sample-HasBlocks : HasBlocks sample 1
sample-HasBlocks k lt = elim (Bool-cases (k == 0)) [
  | inl e ↦
      let z : 0 ≡ k = ground arith in
      (
        subst (λ j. valid_block_number (block_number sample 1 j) ≡ true) z refl,
        λ far. absurd (omega arith),
      )
  | inr e ↦
      let one : 1 ≡ k = ground arith in
      (
        subst (λ j. valid_block_number (block_number sample 1 j) ≡ true) one refl,
        λ far. absurd (omega arith),
      )
]

tfs_read-reads_example :
    tfs_read (pos 2) 4 sample
    ≡ done (pos 4, read_bytes (text_bytes sample 1) 1030 4, set_offset 2 1034 sample)
tfs_read-reads_example =
    tfs_read-reads sample 2 1 4 4 1030 (sample-Ready 2 (omega arith)) sample-HasBlocks refl
      (omega arith) (omega arith) (omega arith) (λ p e. absurd (omega arith))

tfs_copy_to_external_fs-copies_example :
    tfs_copy_to_external_fs 2 out (path_of (97 ∷ [])) sample
    ≡ done (pos 0, text sample 1, used_entry sample 0 1)
tfs_copy_to_external_fs-copies_example =
    tfs_copy_to_external_fs-copies sample (97 ∷ []) 2 out 0 1 out-Works (sized-Unlocked 1500)
      (omega arith) (found 1500) (omega arith) (omega arith) refl (λ k lt. absurd (omega arith))
      sample-HasBlocks (omega arith) (omega arith)

tfs_read-tfs_write_example : GivenBack sample 2 3 2 (7 ∷ 8 ∷ [])
tfs_read-tfs_write_example =
    tfs_read-tfs_write sample 2 3 1 2 (7 ∷ 8 ∷ []) (sample-Ready 2 (omega arith))
      (sample-Ready 3 (omega arith)) (omega arith) sample-Sound refl (omega arith) (omega arith)
      (omega arith) (omega arith) (λ e. absurd (omega arith))

empty_write_keeps_locks_example :
    (tfs_write (pos 2) [] 0 sample ≡ done (pos 0, with_locks 2 1 sample))
    × ((len : ℕ) → tfs_read (pos 2) len (with_locks 2 1 sample) ≡ stuck)
    × ((more : List ℕ) (n : ℕ) → tfs_write (pos 2) more n (with_locks 2 1 sample) ≡ stuck)
    × (tfs_close (pos 2) (with_locks 2 1 sample) ≡ stuck)
empty_write_keeps_locks_example =
    empty_write_keeps_locks sample 2 1 [] (sample-Ready 2 (omega arith))

abbrev long_buffer : List ℕ
long_buffer = read_bytes (λ x. 7) 0 1024

unaligned_write_spills_example :
    (t : State) × (tfs_write (pos 2) long_buffer block_size sample ≡ done (pos block_size, t))
    × ((x : ℕ) → x < 6 → t.fs_data (4 * block_size + x) ≡ get_or long_buffer (block_size - 6 + x) 0)
unaligned_write_spills_example =
    unaligned_write_spills sample 2 1 3 long_buffer (sample-Ready 2 (omega arith)) (omega arith)
      refl (omega arith) (omega (arith, length-read_bytes (λ x. 7) 0 1024))

-- The file has two whole blocks.
tfs_open-whole_blocks_example : tfs_open (path_of (97 ∷ [])) (pos 2) (sized 2048) ≡ undefined
tfs_open-whole_blocks_example =
    tfs_open-whole_blocks (sized 2048) (97 ∷ []) (pos 2) 1 2 (sized-Unlocked 2048) (omega arith)
      (found 2048) (omega arith) refl (sized-Sound 2048 (omega arith)) (omega arith) (omega arith)
      (omega arith) refl

abbrev with_block_4 : State
with_block_4 = record sample { free_blocks = update sample.free_blocks 4 taken }

allocates_4 : data_block_alloc sample ≡ (pos 4, with_block_4)
unfolding data_block_alloc first_free
allocates_4 = refl

reference_block_overruns_example :
    ((4 * block_size + 4056 ≤ fs_data_size)
      × (t : State) × (reference_block 1 sample ≡ done (some (4 * block_size), t))
      × ((x : ℕ) → 4 * block_size ≤ x → x < 4 * block_size + 4056 → t.fs_data x ≡ 255)
      × ((x : ℕ)
          → (x < 4 * block_size) ⊎ (4 * block_size + 4056 ≤ x)
          → t.fs_data x ≡ with_block_4.fs_data x))
    ⊎ ((fs_data_size < 4 * block_size + 4056) × (reference_block 1 sample ≡ undefined))
reference_block_overruns_example =
    reference_block_overruns sample with_block_4 1 4 refl allocates_4 (omega arith)

failed_copy_keeps_handle_example :
    (tfs_copy_to_external_fs 2 (record out { opened = false }) (path_of (97 ∷ [])) sample
      ≡ done (minus_one, [], opened_at sample 0 (pos 1) 0))
    × ((opened_at sample 0 (pos 1) 0).free_open_file_entries 0 ≡ taken)
    × (tfs_destroy_after_all_closed (opened_at sample 0 (pos 1) 0) ≡ stuck)
failed_copy_keeps_handle_example =
    failed_copy_keeps_handle sample (97 ∷ []) 2 (record out { opened = false }) 0 1 0 refl
      (sized-Unlocked 1500) (omega arith) (found 1500) (omega arith) (omega arith) refl
      (λ k lt. absurd (omega arith)) refl
