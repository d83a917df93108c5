-- ===== src/TlsIo.antt =====
-- The callbacks of stdlib/net/tls.c between Secure Transport and the socket. What `read` and `write`
-- answer is a list, in the order of the calls.
pub mod Outcome
pub mod Reading
pub mod Writing
mod Tests
use kodlang.Base.{
  ℕ, zero, suc, ◌+◌, Bytes, List, [], ◌∷◌, ◌++◌, Bool, true, Run, ok, out_of_fuel, ◌>>=◌, memcpy,
  take, drop, length, ltb, ◌==◌, if◌then◌else◌,
}
use kodlang.Fd.{Answer, returned, failed}

-- The results of Secure Transport that the code tells apart.
pub data OsStatus : Type 0 where
  no_err : OsStatus
  closed_graceful : OsStatus
  closed_no_notify : OsStatus
  closed_abort : OsStatus
  would_block : OsStatus
  sec_io : OsStatus
  server_auth_completed : OsStatus
  other : ℕ → OsStatus

-- `Conn`, but for its descriptor.
pub record Conn : Type 0 where
  pub io_errno : ℕ
  pub timed_out : Bool
  pub clean_eof : Bool

-- What a callback leaves: its result, `*len`, and the data read, or handed to the system.
pub record Called : Type 0 where
  pub status : OsStatus
  pub len : ℕ
  pub bytes : Bytes
  pub conn : Conn

module _ (eintr eagain : ℕ) where
  -- An error of `read` or `write` other than EINTR.
  unfoldable pub stopped : ℕ → ℕ → Bytes → Conn → Called
  stopped err len bytes c =
      if err == eagain
      then record {
        status = would_block;
        len = len;
        bytes = bytes;
        conn = record c { timed_out = true };
      }
      else record { status = sec_io; len = len; bytes = bytes; conn = record c { io_errno = err } }

  -- `answers` holds the bytes of each `read`, none at the end of the stream.
  unfoldable pub read_loop : List (Answer Bytes) → ℕ → ℕ → Bytes → Conn → Run Called
  read_loop [] got want buf c =
      if ltb got want
      then out_of_fuel
      else ok (record { status = no_err; len = got; bytes = buf; conn = c })
  read_loop (returned [] ∷ answers) got want buf c = ok (
      if ltb got want
      then record {
        status = closed_graceful;
        len = got;
        bytes = buf;
        conn = if got == 0 then record c { clean_eof = true } else c;
      }
      else record { status = no_err; len = got; bytes = buf; conn = c })
  read_loop (returned (b ∷ bytes) ∷ answers) got want buf c =
      let more = memcpy buf got (b ∷ bytes) 0 (length (b ∷ bytes)) >>= λ next.
      read_loop answers (got + length (b ∷ bytes)) want next c in
      if ltb got want
      then more
      else ok (record { status = no_err; len = got; bytes = buf; conn = c })
  read_loop (failed err ∷ answers) got want buf c =
      let again = read_loop answers got want buf c in
      if ltb got want
      then (if err == eintr then again else ok (stopped err got buf c))
      else ok (record { status = no_err; len = got; bytes = buf; conn = c })

  -- `data` has `*len` bytes.
  unfoldable pub read_cb : List (Answer Bytes) → Bytes → Conn → Run Called
  read_cb answers buf c = read_loop answers 0 (length buf) buf c

  -- `answers` holds the number of bytes that each `write` takes.
  unfoldable pub write_loop : ℕ → List (Answer ℕ) → ℕ → Bytes → Bytes → Conn → Run Called
  write_loop epipe [] put buf sent c =
      if ltb put (length buf)
      then out_of_fuel
      else ok (record { status = no_err; len = put; bytes = sent; conn = c })
  write_loop epipe (returned zero ∷ answers) put buf sent c = ok (
      if ltb put (length buf)
      then record { status = sec_io; len = put; bytes = sent; conn = record c { io_errno = epipe } }
      else record { status = no_err; len = put; bytes = sent; conn = c })
  write_loop epipe (returned (suc n) ∷ answers) put buf sent c =
      let more =
        write_loop epipe answers (put + suc n) buf (sent ++ take (suc n) (drop put buf)) c in
      if ltb put (length buf)
      then more
      else ok (record { status = no_err; len = put; bytes = sent; conn = c })
  write_loop epipe (failed err ∷ answers) put buf sent c =
      let again = write_loop epipe answers put buf sent c in
      if ltb put (length buf)
      then (if err == eintr then again else ok (stopped err put sent c))
      else ok (record { status = no_err; len = put; bytes = sent; conn = c })

  unfoldable pub write_cb : ℕ → List (Answer ℕ) → Bytes → Conn → Run Called
  write_cb epipe answers buf c = write_loop epipe answers 0 buf [] c
