-- ===== src/Fd/Tests.antt =====
-- The calls on file descriptors with a system that interrupts some calls, and the theorems at it.
use kodlang.Base.{ℕ, zero, suc, ◌≡◌, refl, Bytes, [], ◌∷◌, ok, codes, arith, length}
use kodlang.Base.Int.{pos, negsuc}
use kodlang.Fd.{
  Answer, returned, failed, o_wronly, o_creat, o_append, o_cloexec, Process, open_flags,
  kod_fd_open, kod_fd_read, kod_fd_write, bytes_at, io_result, retry, unless_interrupted, c_string,
}
use kodlang.Fd.Calls.{appending, kod_fd_open_lem, kod_fd_read_lem, kod_fd_write_lem}
use kodlang.Fd.Kinds.{Errnos, position, kind_of_errno, kod_errno_kind, position-kind_of_errno}
use kodlang.Fd.Retry.{answered, interrupted}
use kodlang.Str.{strlen}
use kodlang.Str.Repr.{str_of}

abbrev zeros : ℕ → ℕ
zeros i = 0

-- The state is the number of calls that will still be interrupted.
abbrev busy {ℓ} : {A : Type ℓ} → Answer A → ℕ → Answer A × ℕ
busy r zero = (r, 0)
busy r (suc k) = (failed 4, k)

abbrev twice : Process ℕ
twice = record { io_errno = 9; kernel = 2 }

abbrev hi : Bytes
hi = codes "hi"

-- Errno 2 stands.
write_fails :
    kod_fd_write 4 (λ fd xs. busy (failed 2)) 3 (pos 1) (str_of hi) twice
    ≡ ok (negsuc 0, record { io_errno = 2; kernel = 0 })
unfolding kod_fd_write bytes_at retry unless_interrupted io_result
write_fails = refl

open_runs :
    kod_fd_open 4 (λ name flags mode. busy (returned (length name))) 3 (str_of hi) 2 twice
    ≡ ok (pos 2, record { io_errno = 0; kernel = 0 })
unfolding kod_fd_open open_flags c_string strlen retry unless_interrupted io_result
open_runs = refl

appends : open_flags 2 ≡ o_wronly ∷ o_creat ∷ o_append ∷ []
unfolding open_flags
appends = refl

kod_fd_read_lem_example :
    kod_fd_read zeros 4 (λ fd max. busy (returned hi)) 3 (pos 0) (pos 10) twice
    ≡ ok (str_of hi, record { io_errno = 0; kernel = 0 })
kod_fd_read_lem_example =
    kod_fd_read_lem zeros 4 (λ fd max. busy (returned hi)) 3 (pos 0) 10 twice (omega arith)
      (interrupted refl (interrupted refl (answered refl tt))) (omega arith) (omega arith)

kod_fd_write_lem_example :
    kod_fd_write 4 (λ fd xs. busy (returned (length xs))) 3 (pos 1) (str_of hi) twice
    ≡ ok (pos 2, record { io_errno = 0; kernel = 0 })
kod_fd_write_lem_example =
    kod_fd_write_lem 4 (λ fd xs. busy (returned (length xs))) 3 (pos 1) hi twice (omega arith)
      (interrupted refl (interrupted refl (answered refl tt))) (omega arith)

kod_fd_open_lem_example :
    kod_fd_open 4 (λ name flags mode. busy (returned (length name))) 3 (str_of hi) 2 twice
    ≡ ok (pos 2, record { io_errno = 0; kernel = 0 })
kod_fd_open_lem_example =
    kod_fd_open_lem 4 (λ name flags mode. busy (returned (length name))) 3 hi [] 2 2
      (o_cloexec ∷ o_wronly ∷ o_creat ∷ o_append ∷ []) twice (omega arith, (omega arith, tt))
      (appending refl) (interrupted refl (interrupted refl (answered refl tt))) (omega arith)

abbrev numbers : Errnos
numbers = record {
  enoent = 2;
  eacces = 13;
  eperm = 1;
  eexist = 17;
  eaddrinuse = 48;
  einval = 22;
  ebadf = 9;
  eisdir = 21;
  enotdir = 20;
  eagain = 35;
  etimedout = 60;
  econnrefused = 61;
  econnreset = 54;
  epipe = 32;
}

position-kind_of_errno_example :
    position (kind_of_errno numbers (pos 13)) ≡ kod_errno_kind numbers 13
position-kind_of_errno_example = position-kind_of_errno numbers 12
