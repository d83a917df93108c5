-- ===== src/Panic.antt =====
-- `kod_panic`, `kod_index_oob` and `kod_eprint` of stdlib/runtime.c. What the first two print of the
-- stack is a parameter; they end the program.
pub mod Output
mod Tests
use kodlang.Base.{
  ℕ, Bytes, [], ◌∷◌, Run, ok, undefined, ◌>>=◌, codes, length, take, leb, if◌then◌else◌,
}
use kodlang.Base.Int.{ℤ}
use kodlang.Str.{KodStr}
use kodlang.Testing.{Console, write_err, fflush, newline}

-- `fwrite(msg->buf, 1, msg->len, stderr)`
unfoldable pub write_message : KodStr → Console → Run Console
write_message msg c =
    if leb msg.len (length msg.buf) then ok (write_err (take msg.len msg.buf) c) else undefined

unfoldable pub kod_eprint : KodStr → Console → Run Console
kod_eprint msg c = write_message msg c >>= λ shown. ok (write_err newline shown)

-- What is left of a program that ended: its exit status and the console.
pub record Ended : Type 0 where
  pub status : ℕ
  pub console : Console

-- `backtrace` is what `kod_inspect_print_backtrace_from` writes to stderr.
unfoldable pub kod_panic : Bytes → KodStr → Console → Run Ended
kod_panic backtrace msg c = do
  shown ← write_message msg (write_err (codes "panic: ") (fflush c))
  ok (record { status = 1; console = write_err backtrace (write_err newline shown) })

-- `decimal` is how the C library prints a `long long`.
unfoldable pub kod_index_oob : (ℤ → Bytes) → Bytes → ℤ → ℤ → Console → Ended
kod_index_oob decimal backtrace idx len c =
    let index = write_err (decimal idx) (write_err (codes "panic: index ") (fflush c)) in
    let bound =
      write_err (decimal len) (write_err (codes " out of bounds for array of length ") index) in
    record { status = 1; console = write_err backtrace (write_err newline bound) }
