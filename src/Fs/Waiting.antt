-- ===== src/Fs/Waiting.antt =====
-- parte-2: tfs_destroy_after_all_closed of fs/operations.c waits on open_files_cond, which
-- remove_from_open_file_table of fs/state.c signals. Each holds open_files_mutex for one step, and
-- pthread_cond_wait gives it back and waits at once.
use tecnicofs.Base.{
  count_below-update, ℕ, ◌+◌, ◌<◌, ◌≡◌, ◌≢◌, ◌∙◌, sym, ap, refl, arith, ◌⊎◌, inl, inr, Bool, true,
  false, ◌&&◌, if◌then◌else◌, Bool-cases, Option, some, none, ℤ, pos, pos_part, is_zero, decrement,
  subst,
}
use tecnicofs.Fs.State.{State, max_open_files, taken, is_taken}
use tecnicofs.Fs.Blocks.{valid_file_handle}
use tecnicofs.Fs.OpenFiles.{add_to_open_file_table, remove_from_open_file_table}
use tecnicofs.Fs.Operations.Api.{tfs_destroy_after_all_closed}
use tecnicofs.Fs.Handles.{
  open_count, closed, opened_at, closes, not_open, remove_from_open_file_table-Closing, no_entry,
  adds, add_to_open_file_table-Adding,
}

-- Where the caller of tfs_destroy_after_all_closed stands: at the test of the loop, in
-- pthread_cond_wait, or behind the call.
pub data Waiter : Type 0 where
  testing sleeping returned : Waiter

pub record Waiting : Type 0 where
  pub files : State
  pub waiter : Waiter

abbrev pub signalled : Waiter → Waiter
signalled testing = testing
signalled sleeping = testing
signalled returned = returned

-- Whether a close signals: it closes a handle, and the count is then 0.
abbrev pub close_signals : ℤ → State → Bool
close_signals fhandle s =
    valid_file_handle fhandle
    && (is_taken (s.free_open_file_entries (pos_part fhandle))
        && is_zero (decrement s.open_files_count))

-- A close, with the signal.
abbrev pub closing : ℤ → Waiting → Waiting
closing fhandle w = record {
  files = (remove_from_open_file_table fhandle w.files).1;
  waiter = if close_signals fhandle w.files then signalled w.waiter else w.waiter;
}

-- The waiter tests, and returns or sleeps, or it is woken without a signal; or another thread closes or
-- opens a file.
pub data WaitingStep (w u : Waiting) : Type 0 where
  leaves :
      (t : State)
      → w.waiter ≡ testing
      → tfs_destroy_after_all_closed w.files ≡ some (pos 0, t)
      → u ≡ record { files = t; waiter = returned }
      → WaitingStep w u
  sleeps :
      w.waiter ≡ testing
      → tfs_destroy_after_all_closed w.files ≡ none
      → u ≡ record w { waiter = sleeping }
      → WaitingStep w u
  wakes : w.waiter ≡ sleeping → u ≡ record w { waiter = testing } → WaitingStep w u
  file_closed : (fhandle : ℤ) → u ≡ closing fhandle w → WaitingStep w u
  file_opened :
      (inumber : ℤ) (offset : ℕ)
      → u ≡ record w { files = (add_to_open_file_table inumber offset w.files).1 }
      → WaitingStep w u

pub data WaitingReach (w : Waiting) : Waiting → Type 0 where
  start : WaitingReach w w
  later : {u v : Waiting} → WaitingReach w u → WaitingStep u v → WaitingReach w v

-- The count is that of the entries taken, and nobody sleeps when it is 0.
abbrev Kept : Waiting → Type 0
Kept w =
    (w.files.open_files_count ≡ pos (open_count w.files))
    × (w.waiter ≡ sleeping → open_count w.files ≢ 0)

none≢some : {x : ℤ × State} → ◌≡◌ {A = Option (ℤ × State)} none (some x) → ⊥
none≢some e = cc

stops-count :
    (s : State)
    → s.open_files_count ≡ pos (open_count s)
    → open_count s ≡ 0
    → tfs_destroy_after_all_closed s ≡ some (pos 0, record s { open_flag = false })
unfolding tfs_destroy_after_all_closed
stops-count s c z = rw (c, z)

state_or : Option (ℤ × State) → State → State
state_or none d = d
state_or (some (ret, t)) d = t

-- The state that it leaves.
left_by :
    (s t : State)
    → tfs_destroy_after_all_closed s ≡ some (pos 0, t)
    → t ≡ record s { open_flag = false }
unfolding tfs_destroy_after_all_closed state_or
left_by s t e = elim (Bool-cases (is_zero s.open_files_count)) [
  | inl z ↦ sym (rw (z, tfs_destroy_after_all_closed) at (ap (λ o. state_or o s) e))
  | inr nz ↦ absurd (none≢some (rw (nz, tfs_destroy_after_all_closed) at e))
]

-- A signal leaves nobody asleep.
awake : (x : Waiter) → signalled x ≢ sleeping
awake testing e = cc
awake sleeping e = cc
awake returned e = cc

-- Who still sleeps behind a close was not signalled.
not_signalled :
    (b : Bool) (x : Waiter)
    → (if b then signalled x else x) ≡ sleeping
    → (b ≡ false) × (x ≡ sleeping)
not_signalled true x e = absurd (awake x e)
not_signalled false x e = (refl, e)

true≢false : true ≢ false
true≢false e = cc

-- The close of the last handle signals.
last_signals :
    (s : State) (h : ℕ) (fhandle : ℤ)
    → fhandle ≡ pos h
    → h < max_open_files
    → s.free_open_file_entries h ≡ taken
    → decrement s.open_files_count ≡ pos 0
    → close_signals fhandle s ≡ true
last_signals s h fhandle z lt t e =
    let valid : valid_file_handle (pos h) ≡ true = ground arith in
    ap (λ x. close_signals x s) z ∙ rw (valid, t, e) refl

closing-Kept : (fhandle : ℤ) (w : Waiting) → Kept w → Kept (closing fhandle w)
closing-Kept fhandle w (c, k) =
    let s : State = w.files in
    elim (remove_from_open_file_table-Closing s fhandle) [
      | closes h z lt t e count ↦
          let files : (remove_from_open_file_table fhandle s).1 ≡ closed s h = ap (λ r. r.1) e in
          let number : (closed s h).open_files_count ≡ pos (open_count (closed s h)) =
            ground (arith, c, count) in
          (
            rw files number,
            λ asleep. rw files (λ none_left. true≢false (
                sym (last_signals s h fhandle z lt t (number ∙ ap pos none_left))
                ∙ (not_signalled (close_signals fhandle s) w.waiter asleep).0)),
          )
      | not_open all e ↦
          let files : (remove_from_open_file_table fhandle s).1 ≡ s = ap (λ r. r.1) e in
          (
            rw files c,
            λ asleep. rw files (k (not_signalled (close_signals fhandle s) w.waiter asleep).1),
          )
    ]

opening-Kept :
    (inumber : ℤ) (offset : ℕ) (w : Waiting)
    → Kept w
    → Kept (record w { files = (add_to_open_file_table inumber offset w.files).1 })
opening-Kept inumber offset w (c, k) =
    let s : State = w.files in
    elim (add_to_open_file_table-Adding s inumber offset) [
      | no_entry all e ↦
          let files : (add_to_open_file_table inumber offset s).1 ≡ s = ap (λ r. r.1) e in
          (rw files c, λ asleep. rw files (k asleep))
      | adds j lt is_free least e ↦
          let files : (add_to_open_file_table inumber offset s).1 ≡ opened_at s j inumber offset =
            ap (λ r. r.1) e in
          let more : open_count (opened_at s j inumber offset) ≡ open_count s + 1 =
            ground (
              arith,
              count_below-update is_taken max_open_files s.free_open_file_entries j taken,
            ) in
          (rw files (ground (arith, c, more)), λ asleep. rw files (omega (arith, more)))
    ]

testing≢sleeping : testing ≢ sleeping
testing≢sleeping e = cc

Kept-step : (w u : Waiting) → Kept w → WaitingStep w u → Kept u
Kept-step w u (c, k) (leaves t e d q) = subst Kept (sym q) (
    subst (λ x. Kept (record { files = x; waiter = returned })) (sym (left_by w.files t d))
      (c, λ p. absurd (cc)))
Kept-step w u (c, k) (sleeps e d q) =
    subst Kept (sym q) (c, λ p z. none≢some (sym d ∙ stops-count w.files c z))
Kept-step w u (c, k) (wakes e q) = subst Kept (sym q) (c, λ p. absurd (cc))
Kept-step w u kept (file_closed fhandle q) = subst Kept (sym q) (closing-Kept fhandle w kept)
Kept-step w u kept (file_opened inumber offset q) =
    subst Kept (sym q) (opening-Kept inumber offset w kept)

Kept-reach : (w u : Waiting) → Kept w → WaitingReach w u → Kept u
Kept-reach w u kept start = kept
Kept-reach w u kept (later {u = v} r st) = Kept-step v u (Kept-reach w v kept r) st

-- Who does not sleep, behind the call or at the test of a count of 0.
returned_or :
    (x : Waiter) (s : State)
    → s.open_files_count ≡ pos (open_count s)
    → (x ≡ sleeping → open_count s ≢ 0)
    → open_count s ≡ 0
    → (x ≡ returned)
      ⊎ ((x ≡ testing)
          × (tfs_destroy_after_all_closed s ≡ some (pos 0, record s { open_flag = false })))
returned_or testing s c k none_open = inr (refl, stops-count s c none_open)
returned_or sleeping s c k none_open = absurd (k refl none_open)
returned_or returned s c k none_open = inl refl

-- The wake-up of tfs_destroy_after_all_closed is not lost. Let the count of open files be the
-- number of entries taken, and let a thread be at the test of its loop; then let, in any order,
-- the thread test, sleep or be woken without a signal, and other threads close any numbers and add
-- any handles. Whenever no handle is open, the thread does not sleep: it has returned, or it is at
-- the test, and the test then passes, with the result 0 and the file system shut down.
pub closed-returns :
    (w u : Waiting)
    → w.files.open_files_count ≡ pos (open_count w.files)
    → w.waiter ≡ testing
    → WaitingReach w u
    → open_count u.files ≡ 0
    → (u.waiter ≡ returned)
      ⊎ ((u.waiter ≡ testing)
          × (tfs_destroy_after_all_closed u.files
              ≡ some (pos 0, record u.files { open_flag = false })))
closed-returns w u c e r none_open =
    let kept : Kept u = Kept-reach w u (c, λ p. absurd (testing≢sleeping (sym e ∙ p))) r in
    returned_or u.waiter u.files kept.0 kept.1 none_open
