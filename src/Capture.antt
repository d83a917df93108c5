-- ===== src/Capture.antt =====
-- The capture of a child's two output streams in `kod_run_process` of stdlib/runtime.c: the growing
-- buffers of `append_to_buf`, and the loop over `poll`, whose answers are an argument.
pub mod Buffers
pub mod Streams
pub mod Loop
use kodlang.Base.{
  ℕ, ◌-◌, Bytes, List, [], ◌∷◌, Option, none, some, Run, ok, out_of_fuel, ◌>>=◌, add_int64, fresh,
  memcpy, length, ltb, ◌==◌, if◌then◌else◌,
}
use kodlang.Growth.{grow}

-- The variables `buf`, `len` and `cap` of one stream.
pub record Buffer : Type 0 where
  pub bytes : Bytes
  pub len : ℕ
  pub cap : ℕ

module _ (junk : ℕ → ℕ) where
  -- The part of `append_to_buf` under `*len + n > *cap`.
  unfoldable pub regrown : Buffer → ℕ → Run Buffer
  regrown b total = do
    new_cap ← grow total b.cap total
    size ← add_int64 new_cap 1
    new_buf ← memcpy (fresh junk size) 0 b.bytes 0 b.len
    ok (record b { bytes = new_buf; cap = new_cap })

  unfoldable pub append_to_buf : Buffer → Bytes → ℕ → Run Buffer
  append_to_buf b src n = do
    total ← add_int64 b.len n
    roomy ← if ltb b.cap total then regrown b total else ok b
    bytes ← memcpy roomy.bytes roomy.len src 0 n
    ok (record roomy { bytes = bytes; len = total })

-- What `poll` reports of one pipe, with what `read` then returns.
pub data Readiness : Type 0 where
  idle : Readiness
  arrived : Bytes → Readiness
  ended : Readiness

-- One round of the capture: stdout's pipe and stderr's, or a failure of `poll`.
pub data Round : Type 0 where
  poll_fails : Round
  polled : Readiness → Readiness → Round

-- `none` is the -1 that `pfds[i].fd` is set to.
pub record Pipe : Type 0 where
  pub fd : Option ℕ
  pub buffer : Buffer

-- `close`, on the descriptors that are open.
unfoldable pub close : ℕ → List ℕ → List ℕ
close fd [] = []
close fd (d ∷ ds) = if d == fd then ds else d ∷ close fd ds

-- The state of the capture: `open_count`, and the descriptors that are open.
pub record Capture : Type 0 where
  pub out : Pipe
  pub err : Pipe
  pub open_count : ℕ
  pub open_fds : List ℕ

-- What one turn of the inner loop leaves of a pipe and of the rest of the state.
pub record Served : Type 0 where
  pub pipe : Pipe
  pub open_count : ℕ
  pub open_fds : List ℕ

module _ (junk : ℕ → ℕ) where
  -- The inner loop's body for a pipe that is open.
  unfoldable pub serve_open : ℕ → Readiness → Buffer → ℕ → List ℕ → Run Served
  serve_open fd idle b count fds =
      ok (record { pipe = record { fd = some fd; buffer = b }; open_count = count; open_fds = fds })
  serve_open fd ended b count fds = ok (record {
    pipe = record { fd = none; buffer = b };
    open_count = count - 1;
    open_fds = close fd fds;
  })
  serve_open fd (arrived bytes) b count fds = do
    tmp ← memcpy (fresh junk 4096) 0 bytes 0 (length bytes)
    more ← append_to_buf junk b tmp (length bytes)
    ok (record {
      pipe = record { fd = some fd; buffer = more };
      open_count = count;
      open_fds = fds;
    })

  unfoldable pub serve : Readiness → Pipe → ℕ → List ℕ → Run Served
  serve r p count fds = elim p.fd [
    | none ↦ ok (record { pipe = p; open_count = count; open_fds = fds })
    | some fd ↦ serve_open fd r p.buffer count fds
  ]

  -- `for (int i = 0; i < 2; i++)`
  unfoldable pub serve_both : Readiness → Readiness → Capture → Run Capture
  serve_both a b s = do
    first ← serve a s.out s.open_count s.open_fds
    second ← serve b s.err first.open_count first.open_fds
    ok (record {
      out = first.pipe;
      err = second.pipe;
      open_count = second.open_count;
      open_fds = second.open_fds;
    })

  -- `while (open_count > 0)`, over the rounds that the system gives.
  unfoldable pub capture : List Round → Capture → Run Capture
  capture [] s = if ltb 0 s.open_count then out_of_fuel else ok s
  capture (poll_fails ∷ rounds) s = ok s
  capture (polled a b ∷ rounds) s =
      let more = serve_both a b s >>= capture rounds in if ltb 0 s.open_count then more else ok s
