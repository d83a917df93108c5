-- ===== src/Fd.antt =====
-- The calls on file descriptors in stdlib/runtime.c, and the kinds of error of stdlib/stream.kod that
-- their error numbers stand for. The operating system is a parameter: a state, and what each system
-- call answers in that state.
pub mod Retry
pub mod Kinds
mod Tests
pub mod Calls
use kodlang.Base.{
  ℕ, zero, suc, Bytes, List, [], ◌∷◌, Run, ok, undefined, out_of_fuel, ◌>>=◌, fresh, memcpy, length,
  take, ltb, leb, ◌==◌, if◌then◌else◌,
}
use kodlang.Base.Int.{ℤ, pos, negsuc, pos_part, ltb_ℤ}
use kodlang.Str.{KodStr, kod_str_new, kod_str_from_bytes, strlen}

-- What a system call answers: a result, or -1 with an error number in `errno`.
pub data Answer {ℓ} (A : Type ℓ) : Type ℓ where
  returned : A → Answer A
  failed : ℕ → Answer A

pub data Flag : Type 0 where
  o_rdonly : Flag
  o_wronly : Flag
  o_creat : Flag
  o_trunc : Flag
  o_append : Flag
  o_cloexec : Flag

-- The global `g_io_errno`, and the state of the operating system.
pub record Process (K : Type 0) : Type 0 where
  pub io_errno : ℕ
  pub kernel : K

-- `mode` is the bit pattern of an `int64_t`.
unfoldable pub open_flags : ℕ → List Flag
open_flags mode =
    let plain = o_rdonly ∷ [] in
    let truncating = if mode == 1 then o_wronly ∷ o_creat ∷ o_trunc ∷ [] else plain in
    if mode == 2 then o_wronly ∷ o_creat ∷ o_append ∷ [] else truncating

-- The bytes that the system reads behind a pointer: up to the first NUL, or a given number.
unfoldable pub c_string : Bytes → Run Bytes
c_string buf = do n ← strlen buf; ok (take n buf)

unfoldable pub bytes_at : Bytes → ℕ → Run Bytes
bytes_at buf n = if leb n (length buf) then ok (take n buf) else undefined

-- `if (max > (int64_t)sizeof chunk) max = (int64_t)sizeof chunk;`
unfoldable pub capped : ℤ → ℤ
capped max = if ltb_ℤ (pos 65536) max then pos 65536 else max

module _ {K : Type 0} where
  -- `g_io_errno = r < 0 ? errno : 0; return r;`
  unfoldable pub io_result : Answer ℕ × K → ℤ × Process K
  io_result (returned n, k) = (pos n, record { io_errno = 0; kernel = k })
  io_result (failed e, k) = (negsuc 0, record { io_errno = e; kernel = k })

  unfoldable pub kod_io_errno : Process K → ℕ
  kod_io_errno p = p.io_errno

  unfoldable pub kod_io_set_errno : ℕ → Process K → Process K
  kod_io_set_errno err p = record p { io_errno = err }

  -- The loop's condition `r < 0 && errno == EINTR`, after one call.
  unfoldable pub unless_interrupted {ℓ} :
      {A : Type ℓ} → ℕ → Run (Answer A × K) → Answer A × K → Run (Answer A × K)
  unless_interrupted eintr again (returned v, k) = ok (returned v, k)
  unless_interrupted eintr again (failed e, k) = if e == eintr then again else ok (failed e, k)

  -- `do { r = call(); } while (r < 0 && errno == EINTR);`, with the calls bounded by fuel.
  unfoldable pub retry {ℓ} : {A : Type ℓ} → ℕ → ℕ → (K → Answer A × K) → K → Run (Answer A × K)
  unfolding unless_interrupted
  retry eintr zero sys k = out_of_fuel
  retry eintr (suc n) sys k =
      let out = sys k in let again = retry eintr n sys out.1 in unless_interrupted eintr again out

  -- `eintr` is the number EINTR.
  module _ (eintr : ℕ) where
    unfoldable pub kod_fd_open :
        (Bytes → List Flag → ℕ → K → Answer ℕ × K)
        → ℕ
        → KodStr
        → ℕ
        → Process K
        → Run (ℤ × Process K)
    kod_fd_open sys_open fuel path mode p = do
      name ← c_string path.buf
      -- 0644 in octal
      out ← retry eintr fuel (sys_open name (o_cloexec ∷ open_flags mode) 420) p.kernel
      ok (io_result out)

    unfoldable pub kod_fd_write :
        (ℤ → Bytes → K → Answer ℕ × K) → ℕ → ℤ → KodStr → Process K → Run (ℤ × Process K)
    kod_fd_write sys_write fuel fd d p =
        if d.len == 0 then ok (pos 0, record p { io_errno = 0 }) else (do
          bytes ← bytes_at d.buf d.len
          out ← retry eintr fuel (sys_write fd bytes) p.kernel
          ok (io_result out))

  -- `junk` is what memory holds before it is written.
  module _ (junk : ℕ → ℕ) where
    -- What follows the loop in `kod_fd_read`; the system has written its bytes to `chunk`.
    unfoldable pub read_result : Answer Bytes × K → Run (KodStr × Process K)
    read_result (returned bytes, k) = do
      chunk ← memcpy (fresh junk 65536) 0 bytes 0 (length bytes)
      s ← kod_str_from_bytes junk chunk (length bytes)
      ok (s, record { io_errno = 0; kernel = k })
    read_result (failed e, k) = do
      s ← kod_str_new junk 0
      ok (s, record { io_errno = e; kernel = k })

  module _ (junk : ℕ → ℕ) (eintr : ℕ) where
    unfoldable pub kod_fd_read :
        (ℤ → ℕ → K → Answer Bytes × K) → ℕ → ℤ → ℤ → Process K → Run (KodStr × Process K)
    kod_fd_read sys_read fuel fd max p =
        let size = capped max in
        if ltb_ℤ (pos 0) size
        then (do
          out ← retry eintr fuel (sys_read fd (pos_part size)) p.kernel
          read_result junk out)
        else (do s ← kod_str_new junk 0; ok (s, record p { io_errno = 0 }))

  -- Not retried.
  unfoldable pub kod_fd_close : (ℤ → K → Answer ℕ × K) → ℤ → Process K → ℤ × Process K
  kod_fd_close sys_close fd p = io_result (sys_close fd p.kernel)
