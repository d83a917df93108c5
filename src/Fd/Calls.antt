-- ===== src/Fd/Calls.antt =====
-- What the calls on file descriptors return and leave in `kod_io_errno`.
use kodlang.Base.{
  ℕ, ◌<◌, ◌≤◌, ◌≡◌, ◌≢◌, ap, ◌∙◌, Bytes, [], ◌∷◌, ◌++◌, ok, arith, length, length-append, drop,
  take_all, take, ap₂, lt→ltb, ◌+◌, List, refl, false, take-append, le→leb, fresh, length-fresh,
  memcpy, memcpy_lem, min,
}
use kodlang.Base.Int.{ℤ, pos, negsuc, pos_part, ltb_ℤ}
use kodlang.Fd.{
  capped, Answer, returned, failed, Process, c_string, bytes_at, io_result, kod_fd_open,
  read_result, kod_fd_read, kod_fd_write, open_flags, o_rdonly, o_wronly, o_creat, o_trunc,
  o_append, o_cloexec, Flag,
}
use kodlang.Fd.Retry.{Settles, retry_lem}
use kodlang.Str.Cstr.{NoNul, strlen_lem}
use kodlang.Str.Ops.{kod_str_from_bytes_lem}
use kodlang.Str.Repr.{str_of, kod_str_new_lem}

-- The flags that a mode stands for.
pub data OpensWith (mode : ℕ) : List Flag → Type 0 where
  reading : mode ≢ 1 → mode ≢ 2 → OpensWith mode (o_cloexec ∷ o_rdonly ∷ [])
  truncating : mode ≡ 1 → OpensWith mode (o_cloexec ∷ o_wronly ∷ o_creat ∷ o_trunc ∷ [])
  appending : mode ≡ 2 → OpensWith mode (o_cloexec ∷ o_wronly ∷ o_creat ∷ o_append ∷ [])

open_flags_lem :
    {mode : ℕ} {flags : List Flag} → OpensWith mode flags → o_cloexec ∷ open_flags mode ≡ flags
unfolding open_flags
open_flags_lem (reading h k) = ground (arith, h, k)
open_flags_lem (truncating e) = rw e refl
open_flags_lem (appending e) = rw e refl

pub c_string_lem : (xs rest : Bytes) → NoNul xs → c_string (xs ++ 0 ∷ rest) ≡ ok xs
unfolding c_string
c_string_lem xs rest h =
    rw (strlen_lem xs rest h) (ap ok (take-append (length xs) xs (0 ∷ rest) (omega arith)))

bytes_at_lem : (xs rest : Bytes) → bytes_at (xs ++ rest) (length xs) ≡ ok xs
unfolding bytes_at
bytes_at_lem xs rest =
    rw (le→leb (length xs) (length (xs ++ rest)) (omega (arith, length-append xs rest)))
      (ap ok (take-append (length xs) xs rest (omega arith)))

-- What the answer comes to for the caller of `kod_fd_read`: the bytes and errno 0, or no bytes and
-- the error's number.
abbrev pub bytes_of : Answer Bytes → Bytes
bytes_of (returned bytes) = bytes
bytes_of (failed e) = []

abbrev pub errno_of {ℓ} : {A : Type ℓ} → Answer A → ℕ
errno_of (returned v) = 0
errno_of (failed e) = e

-- -1 for an error.
abbrev pub count_of : Answer ℕ → ℤ
count_of (returned n) = pos n
count_of (failed e) = negsuc 0

chunk_lem :
    (junk : ℕ → ℕ) (bytes : Bytes)
    → length bytes ≤ 65536
    → memcpy (fresh junk 65536) 0 bytes 0 (length bytes)
      ≡ ok (bytes ++ drop (length bytes) (fresh junk 65536))
chunk_lem junk bytes h =
    memcpy_lem (fresh junk 65536) 0 bytes 0 (length bytes) (omega (arith, length-fresh junk 65536))
      (omega arith)
    ∙ ap₂ (λ b m. ok (b ++ drop m (fresh junk 65536))) {x = take (length bytes) bytes}
        {u = 0 + length bytes} (take_all (length bytes) bytes (omega arith)) (omega arith)

pub capped_lem : (max : ℕ) → capped (pos max) ≡ pos (min 65536 max)
unfolding capped
capped_lem max = ground arith

pub capped_none : (max : ℤ) → pos_part max ≡ 0 → ltb_ℤ (pos 0) (capped max) ≡ false
unfolding capped
capped_none max h = ground arith

module _ {K : Type 0} (junk : ℕ → ℕ) where
  read_result_lem :
      (r : Answer Bytes) (k : K)
      → length (bytes_of r) ≤ 65536
      → read_result junk (r, k)
        ≡ ok (str_of (bytes_of r), record { io_errno = errno_of r; kernel = k })
  unfolding read_result
  read_result_lem (returned bytes) k h = rw (
    chunk_lem junk bytes h,
    kod_str_from_bytes_lem junk bytes (drop (length bytes) (fresh junk 65536)) (omega arith),
  )
  read_result_lem (failed e) k h = rw (kod_str_new_lem junk 0 (omega arith)) (unfold fresh in refl)

  -- Interrupted calls do not show: kod_fd_read with a positive max asks the system for max bytes,
  -- 65536 at most, and gives the bytes of the first answer that is not an interruption and errno 0,
  -- or no bytes and the number of its error. The fuel is more than the number of interruptions, and
  -- the system returns no more than it was asked for.
  pub kod_fd_read_lem :
      (eintr : ℕ) (sys_read : ℤ → ℕ → K → Answer Bytes × K) (fuel : ℕ) (fd : ℤ) (max : ℕ)
      (p : Process K) {n : ℕ} {r : Answer Bytes} {k : K}
      → 0 < max
      → Settles eintr (sys_read fd (min 65536 max)) n p.kernel r k
      → length (bytes_of r) ≤ min 65536 max
      → n < fuel
      → kod_fd_read junk eintr sys_read fuel fd (pos max) p
        ≡ ok (str_of (bytes_of r), record { io_errno = errno_of r; kernel = k })
  unfolding kod_fd_read
  kod_fd_read_lem eintr sys_read fuel fd max p {r} {k} some_asked s b h =
      rw
        (
          capped_lem max,
          lt→ltb (0 + 0) (min 65536 max + 0) (omega arith),
          retry_lem eintr (sys_read fd (min 65536 max)) fuel s h,
        )
        (read_result_lem r k (omega arith))

  -- Without a positive `max` nothing is read.
  pub kod_fd_read_none :
      (eintr : ℕ) (sys_read : ℤ → ℕ → K → Answer Bytes × K) (fuel : ℕ) (fd max : ℤ) (p : Process K)
      → pos_part max ≡ 0
      → kod_fd_read junk eintr sys_read fuel fd max p ≡ ok (str_of [], record p { io_errno = 0 })
  unfolding kod_fd_read
  kod_fd_read_none eintr sys_read fuel fd max p h =
      rw (capped_none max h, kod_str_new_lem junk 0 (omega arith)) (unfold fresh in refl)

module _ {K : Type 0} (eintr : ℕ) where
  io_result_lem :
      (r : Answer ℕ) (k : K)
      → io_result (r, k) ≡ (count_of r, record { io_errno = errno_of r; kernel = k })
  unfolding io_result
  io_result_lem (returned n) k = refl
  io_result_lem (failed e) k = refl

  -- Interrupted calls do not show: kod_fd_write of some bytes hands all of them to the system, and
  -- returns how many it took and errno 0 by the first answer that is not an interruption, or -1 and
  -- the number of its error. The fuel is more than the number of interruptions.
  pub kod_fd_write_lem :
      (sys_write : ℤ → Bytes → K → Answer ℕ × K) (fuel : ℕ) (fd : ℤ) (xs : Bytes) (p : Process K)
      {n : ℕ} {r : Answer ℕ} {k : K}
      → 0 < length xs
      → Settles eintr (sys_write fd xs) n p.kernel r k
      → n < fuel
      → kod_fd_write eintr sys_write fuel fd (str_of xs) p
        ≡ ok (count_of r, record { io_errno = errno_of r; kernel = k })
  unfolding kod_fd_write
  kod_fd_write_lem sys_write fuel fd [] p bytes s h = absurd (omega arith)
  kod_fd_write_lem sys_write fuel fd (x ∷ xs) p {r} {k} bytes s h =
      let sent = retry_lem eintr (sys_write fd (x ∷ xs)) fuel s h in
      let shown = io_result_lem r k in ground (arith, bytes_at_lem (x ∷ xs) (0 ∷ []), sent, shown)

  -- Interrupted calls do not show: kod_fd_open opens the path's bytes up to its first NUL, for
  -- reading with the modes other than 1 and 2, with creation and truncation for writing with mode
  -- 1, with creation and appending with mode 2, close-on-exec in each, and returns the descriptor
  -- and errno 0 by the first answer that is not an interruption, or -1 and the number of its error.
  -- The fuel is more than the number of interruptions.
  pub kod_fd_open_lem :
      (sys_open : Bytes → List Flag → ℕ → K → Answer ℕ × K) (fuel : ℕ) (xs rest : Bytes)
      (len mode : ℕ) (flags : List Flag) (p : Process K) {n : ℕ} {r : Answer ℕ} {k : K}
      → NoNul xs
      → OpensWith mode flags
      → Settles eintr (sys_open xs flags 420) n p.kernel r k
      → n < fuel
      → kod_fd_open eintr sys_open fuel (record { buf = xs ++ 0 ∷ rest; len = len }) mode p
        ≡ ok (count_of r, record { io_errno = errno_of r; kernel = k })
  unfolding kod_fd_open
  kod_fd_open_lem sys_open fuel xs rest len mode flags p {r} {k} no_nul w s h = rw (
    c_string_lem xs rest no_nul,
    open_flags_lem w,
    retry_lem eintr (sys_open xs flags 420) fuel s h,
    io_result_lem r k,
  )
