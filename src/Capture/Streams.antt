-- ===== src/Capture/Streams.antt =====
-- The loop of the capture: each stream arrives whole and in order, however the rounds interleave.
use kodlang.Base.{
  ℕ, ◌+◌, ◌^◌, ◌<◌, ◌≤◌, ◌≡◌, refl, subst, sym, Bytes, List, [], ◌∷◌, ◌++◌, none, some, Bool, true,
  false, ok, length, append-nil, memcpy-fresh, fresh, drop, if◌then◌else◌, arith,
}
use kodlang.Capture.{
  Buffer, Readiness, idle, arrived, ended, Round, poll_fails, polled, Pipe, close, Served,
  serve_open, serve,
}
use kodlang.Capture.Buffers.{Filled, append_to_buf_lem}

-- Which of the two pipes.
abbrev pub Side : Type 0
Side = Readiness → Readiness → Readiness

abbrev pub of_stdout : Side
of_stdout a b = a

abbrev pub of_stderr : Side
of_stderr a b = b

-- What one round adds to a stream that is open, and whether it is open behind it.
abbrev pub piece : Readiness → Bytes
piece idle = []
piece (arrived bytes) = bytes
piece ended = []

abbrev pub stays : Readiness → Bool
stays idle = true
stays (arrived bytes) = true
stays ended = false

-- All that a stream carries up to its end.
abbrev pub text_of : Side → List Round → Bytes
text_of side [] = []
text_of side (poll_fails ∷ rounds) = []
text_of side (polled a b ∷ rounds) =
    if stays (side a b) then piece (side a b) ++ text_of side rounds else []

-- The stream comes to its end before `poll` fails.
abbrev pub Ends : Side → List Round → Type 0
Ends side [] = ⊥
Ends side (poll_fails ∷ rounds) = ⊥
Ends side (polled a b ∷ rounds) = if stays (side a b) then Ends side rounds else Unit

-- `read` returns no more than the 4096 bytes it is asked for.
abbrev pub Small : List Round → Type 0
Small [] = Unit
Small (poll_fails ∷ rounds) = Small rounds
Small (polled a b ∷ rounds) = (length (piece a) ≤ 4096) × (length (piece b) ≤ 4096) × Small rounds

-- For a stream that may have ended: what is to come, and that it will end.
abbrev pub remaining : Side → Bool → List Round → Bytes
remaining side true rounds = text_of side rounds
remaining side false rounds = []

abbrev pub WillEnd : Side → Bool → List Round → Type 0
WillEnd side true rounds = Ends side rounds
WillEnd side false rounds = Unit

abbrev pub next_open : Readiness → Bool → Bool
next_open r true = stays r
next_open r false = false

abbrev pub added : Readiness → Bool → Bytes
added r true = piece r
added r false = []

abbrev pub flag : Bool → ℕ
flag true = 1
flag false = 0

abbrev pub front : ℕ → Bool → List ℕ → List ℕ
front d true ds = d ∷ ds
front d false ds = ds

-- A pipe with descriptor `d`, open or closed, that has taken in some bytes.
pub record Taking (d : ℕ) (live : Bool) (done : Bytes) (p : Pipe) : Type 0 where
  pub fd : p.fd ≡ (if live then some d else none)
  pub filled : Filled done p.buffer

abbrev pub closing : ℕ → Readiness → Bool → List ℕ → List ℕ
closing d r true fds = if stays r then fds else close d fds
closing d r false fds = fds

pub record AfterTurn (d : ℕ) (r : Readiness) (live : Bool) (done : Bytes) (count : ℕ) (fds : List ℕ)
    (sv : Served) : Type 0 where
  pub pipe : Taking d (next_open r live) (done ++ added r live) sv.pipe
  pub open_count : sv.open_count + flag live ≡ count + flag (next_open r live)
  pub open_fds : sv.open_fds ≡ closing d r live fds

module _ (junk : ℕ → ℕ) where
  serve_open_lem :
      (d : ℕ) (r : Readiness) (done : Bytes) (b : Buffer) (count : ℕ) (fds : List ℕ)
      → Filled done b
      → length (piece r) ≤ 4096
      → length done < 2 ^ 60
      → 0 < count
      → (sv : Served) × (serve_open junk d r b count fds ≡ ok sv)
        × AfterTurn d r true done count fds sv
  unfolding serve_open
  serve_open_lem d idle done b count fds v small few positive = (
    _,
    refl,
    record {
      pipe = record { fd = refl; filled = subst (λ t. Filled t b) (sym (append-nil done)) v };
      open_count = refl;
      open_fds = refl;
    },
  )
  serve_open_lem d ended done b count fds v small few positive = (
    _,
    refl,
    record {
      pipe = record { fd = refl; filled = subst (λ t. Filled t b) (sym (append-nil done)) v };
      open_count = omega arith;
      open_fds = refl;
    },
  )
  serve_open_lem d (arrived bytes) done b count fds v small few positive =
      let (b', e, w) =
        append_to_buf_lem junk done bytes (drop (0 + length bytes) (fresh junk 4096)) b v
          (omega arith) in
      (
        record { pipe = record { fd = some d; buffer = b' }; open_count = count; open_fds = fds },
        rw (memcpy-fresh junk 4096 bytes small, e),
        record { pipe = record { fd = refl; filled = w }; open_count = refl; open_fds = refl },
      )

  pub serve_lem :
      (d : ℕ) (r : Readiness) (live : Bool) (done : Bytes) (p : Pipe) (count : ℕ) (fds : List ℕ)
      → Taking d live done p
      → length (piece r) ≤ 4096
      → length done < 2 ^ 60
      → flag live ≤ count
      → (sv : Served) × (serve junk r p count fds ≡ ok sv) × AfterTurn d r live done count fds sv
  unfolding serve
  serve_lem d r true done p count fds v small few positive =
      let (sv, e, w) = serve_open_lem d r done p.buffer count fds v.filled small few positive in
      (sv, rw v.fd e, w)
  serve_lem d r false done p count fds v small few positive = (
    record { pipe = p; open_count = count; open_fds = fds },
    rw v.fd,
    record {
      pipe = record {
        fd = v.fd;
        filled = subst (λ t. Filled t p.buffer) (sym (append-nil done)) v.filled;
      };
      open_count = refl;
      open_fds = refl;
    },
  )
