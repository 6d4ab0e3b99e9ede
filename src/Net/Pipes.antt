-- ===== src/Net/Pipes.antt =====
-- Where parte-2/client/tecnicofs_client_api.c and parte-2/fs/tfs_server.c open pipes: the results of
-- the system calls are arguments.
use tecnicofs.Base.{
  ℕ, ◌<◌, ◌++◌, subst, ◌≡◌, ap, refl, arith, Bool, true, false, not, ◌||◌, Option, none, some,
  Bool-cases, inl, inr, List, [], length, if◌then◌else◌, ℤ, pos, minus_one, is_minus_one, is_zero,
}
use tecnicofs.Memory.{Memory, read_bytes}
use tecnicofs.Net.Wire.{buffer_size, c_string}
use tecnicofs.Net.Client.{mount_request, mount_return}
use tecnicofs.Net.Mounts.{Mounting, receive-Mounting}
use tecnicofs.Memory.Strings.{IsString}
use tecnicofs.Net.Receiver.{Server, receive}

-- The results of the calls in tfs_mount: `unlinked` if the old pipe is gone, `made` if mkfifo
-- succeeds, the two descriptors, `sent` if write_buffer succeeds, and the number that is read.
pub record MountCalls : Type 0 where
  pub unlinked : Bool
  pub made : Bool
  pub rx : ℤ
  pub tx : ℤ
  pub sent : Bool
  pub answer : Option ℤ

-- The result and the bytes for the server; `none` where the path leaves the array of the request.
unfoldable pub tfs_mount : MountCalls → List ℕ → Option (ℤ × List ℕ)
tfs_mount c path =
    if not c.unlinked || (not c.made || (is_minus_one c.rx || is_minus_one c.tx))
    then some (minus_one, [])
    else elim (mount_request path) [
      | none ↦ none
      | some bytes ↦ some (mount_return c.sent c.answer, bytes)
    ]

-- What a function of the server does: it returns, or ends the process with a status.
pub data Outcome : Type 0 where
  returns : Bool → Outcome
  exits : ℕ → Outcome

-- Whether the read of a code succeeded, as main asks after each: `ret` is what read returned,
-- `reopened` the descriptor of the pipe that is opened again at its end.
unfoldable pub check_pipe_open : ℤ → ℤ → Server → Outcome
check_pipe_open ret reopened s =
    if is_minus_one ret
    then returns false
    else if not (is_zero ret)
    then returns true
    else if is_minus_one reopened
    then exits 1
    else if s.shutting_down
    then exits 0
    else returns false

-- What handle_too_many_clients does with the path that it takes from the session's buffer, at a time
-- when only the code of the request is there: the path leaves its array; the pipe cannot be opened;
-- the code -1 cannot be written; or it is written.
pub data Refusal : Type 0 where
  overrun unwritten : Refusal
  unopened : List ℕ → Refusal
  told : List ℕ → Refusal

-- `opens` is what open with the flags 0640 returns for a path, and `written` what write returns.
unfoldable pub handle_too_many_clients : (List ℕ → ℤ) → ℤ → Memory → Refusal
handle_too_many_clients opens written buffer = elim (c_string (read_bytes buffer 1 buffer_size)) [
  | none ↦ overrun
  | some pipename ↦
      if is_minus_one (opens pipename)
      then unopened pipename
      else if is_minus_one written
      then unwritten
      else told pipename
]

mount_return-joined :
    (sent : Bool) (answer : Option ℤ)
    → mount_return sent answer ≡ pos 0
    → (sent ≡ true) × ((z : ℤ) × (answer ≡ some z) × (is_minus_one z ≡ false))
unfolding mount_return
mount_return-joined false answer e = absurd (cc)
mount_return-joined true none e = absurd (cc)
mount_return-joined true (some z) e = elim (Bool-cases (is_minus_one z)) [
  | inl bad ↦ absurd (ground arith)
  | inr ok ↦ (refl, (z, refl, ok))
]

result_of : Option (ℤ × List ℕ) → ℤ
result_of none = minus_one
result_of (some (ret, bytes)) = ret

bytes_of : Option (ℤ × List ℕ) → List ℕ
bytes_of none = []
bytes_of (some (ret, bytes)) = bytes

-- When tfs_mount returns 0 for a path that is a string of less than 40 bytes, the old pipe was
-- gone, the new one was made and both pipes were opened, the request was written without a
-- failure, and the server has answered with a number that is not -1. The bytes that it sent, with
-- any bytes behind them, are taken by main as a mount of exactly this path: below the number 64 it
-- gets the next session, which then has its path, with the number 64 it is refused, and with a
-- larger one main indexes behind the table of sessions.
pub tfs_mount-joined :
    (c : MountCalls) (path bytes rest : List ℕ) (v : Server)
    → IsString path
    → length path < buffer_size
    → tfs_mount c path ≡ some (pos 0, bytes)
    → (c.unlinked ≡ true)
      × (c.made ≡ true)
      × (is_minus_one c.rx ≡ false)
      × (is_minus_one c.tx ≡ false)
      × (c.sent ≡ true)
      × ((z : ℤ) × (c.answer ≡ some z) × (is_minus_one z ≡ false))
      × Mounting v path rest (receive v (bytes ++ rest))
unfolding tfs_mount result_of bytes_of
tfs_mount-joined c path bytes rest v hs short e =
    elim (Bool-cases (not c.unlinked || (not c.made || (is_minus_one c.rx || is_minus_one c.tx)))) [
      | inl failed ↦
          let q : minus_one ≡ pos 0 = rw (failed, tfs_mount) at (ap (λ o. result_of o) e) in
          absurd (cc)
      | inr opened ↦
          let (sent, q, m) = receive-Mounting v path rest hs short in
          let ret : mount_return c.sent c.answer ≡ pos 0 =
            rw (opened, q, tfs_mount) at (ap (λ o. result_of o) e) in
          let same : sent ≡ bytes = rw (opened, q, tfs_mount) at (ap (λ o. bytes_of o) e) in
          let (s, z) = mount_return-joined c.sent c.answer ret in
          (
            ground arith,
            ground arith,
            ground arith,
            ground arith,
            s,
            z,
            subst (λ b. Mounting v path rest (receive v (b ++ rest))) same m,
          )
    ]
