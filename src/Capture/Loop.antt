-- ===== src/Capture/Loop.antt =====
-- The loop of the capture: each stream arrives whole and in order, however the rounds interleave.
use kodlang.Base.{
  ℕ, ◌+◌, ◌^◌, ◌<◌, ◌≤◌, ◌≡◌, ◌≢◌, refl, ap, subst, sym, ◌∙◌, Bytes, List, [], ◌∷◌, ◌++◌, Bool,
  true, false, ok, length, length-append, append_assoc, append-nil, if◌then◌else◌, lt→ltb, le→ltb,
  arith,
}
use kodlang.Capture.{
  Readiness, idle, arrived, ended, Round, poll_fails, polled, close, Capture, serve_both, capture,
}
use kodlang.Capture.Buffers.{Filled}
use kodlang.Capture.Streams.{
  Side, of_stdout, of_stderr, piece, stays, text_of, Ends, Small, remaining, WillEnd, next_open,
  added, flag, front, Taking, closing, serve_lem,
}

remaining_step :
    (side : Side) (a b : Readiness) (live : Bool) (rounds : List Round)
    → remaining side live (polled a b ∷ rounds)
      ≡ added (side a b) live ++ remaining side (next_open (side a b) live) rounds
remaining_step side a b false rounds = refl
remaining_step side a b true rounds = by_readiness (side a b)
  where
    by_readiness :
        (r : Readiness)
        → (if stays r then piece r ++ text_of side rounds else [])
          ≡ piece r ++ remaining side (stays r) rounds
    by_readiness idle = refl
    by_readiness (arrived bytes) = refl
    by_readiness ended = refl

behind :
    (side : Side) (a b : Readiness) (live : Bool) (rounds : List Round) (xs : Bytes)
    → xs ++ remaining side live (polled a b ∷ rounds)
      ≡ (xs ++ added (side a b) live) ++ remaining side (next_open (side a b) live) rounds
behind side a b live rounds xs =
    ap (λ t. xs ++ t) (remaining_step side a b live rounds)
    ∙ sym (
        append_assoc xs (added (side a b) live) (remaining side (next_open (side a b) live) rounds))

length-behind :
    (side : Side) (a b : Readiness) (live : Bool) (rounds : List Round) (xs : Bytes)
    → length xs + length (remaining side live (polled a b ∷ rounds))
      ≡ length (xs ++ added (side a b) live)
        + length (remaining side (next_open (side a b) live) rounds)
length-behind side a b live rounds xs =
    sym (length-append xs (remaining side live (polled a b ∷ rounds)))
    ∙ ap length (behind side a b live rounds xs)
    ∙ length-append (xs ++ added (side a b) live)
        (remaining side (next_open (side a b) live) rounds)

WillEnd-step :
    (side : Side) (a b : Readiness) (live : Bool) (rounds : List Round)
    → WillEnd side live (polled a b ∷ rounds)
    → WillEnd side (next_open (side a b) live) rounds
WillEnd-step side a b false rounds w = w
WillEnd-step side a b true rounds w = by_readiness (side a b) w
  where
    by_readiness :
        (r : Readiness)
        → (if stays r then Ends side rounds else Unit)
        → WillEnd side (stays r) rounds
    by_readiness idle w = w
    by_readiness (arrived bytes) w = w
    by_readiness ended w = w

closing_first :
    (d : ℕ) (r : Readiness) (live : Bool) (ds : List ℕ)
    → closing d r live (front d live ds) ≡ front d (next_open r live) ds
unfolding close
closing_first d idle true ds = refl
closing_first d (arrived bytes) true ds = refl
closing_first d ended true ds = ground arith
closing_first d r false ds = refl

closing_second :
    (d e : ℕ) (r : Readiness) (live other : Bool) (ds : List ℕ)
    → d ≢ e
    → closing d r live (front e other (front d live ds))
      ≡ front e other (front d (next_open r live) ds)
unfolding close
closing_second d e idle true other ds h = refl
closing_second d e (arrived bytes) true other ds h = refl
closing_second d e ended true true ds h = ground (arith, h)
closing_second d e ended true false ds h = ground arith
closing_second d e r false other ds h = refl

module _ (junk : ℕ → ℕ) (o e : ℕ) (apart : o ≢ e) (base : List ℕ) where
  -- The state with each stream open or closed, after it has taken in some bytes.
  pub record At (out_live err_live : Bool) (xs ys : Bytes) (s : Capture) : Type 0 where
    pub out : Taking o out_live xs s.out
    pub err : Taking e err_live ys s.err
    pub open_count : s.open_count ≡ flag out_live + flag err_live
    pub open_fds : s.open_fds ≡ front e err_live (front o out_live base)

  serve_both_lem :
      (a b : Readiness) (i j : Bool) (xs ys : Bytes) (s : Capture)
      → At i j xs ys s
      → length (piece a) ≤ 4096
      → length (piece b) ≤ 4096
      → length xs < 2 ^ 60
      → length ys < 2 ^ 60
      → (s' : Capture) × (serve_both junk a b s ≡ ok s')
        × At (next_open a i) (next_open b j) (xs ++ added a i) (ys ++ added b j) s'
  unfolding serve_both
  serve_both_lem a b i j xs ys s v small_a small_b few_x few_y =
      let (p, f, w) =
        serve_lem junk o a i xs s.out s.open_count s.open_fds v.out small_a few_x
          (omega (arith, v.open_count)) in
      let counted : p.open_count ≡ flag (next_open a i) + flag j =
        omega (arith, w.open_count, v.open_count) in
      let (q, g, u) =
        serve_lem junk e b j ys s.err p.open_count p.open_fds v.err small_b few_y
          (omega (arith, counted)) in
      let rest : p.open_fds ≡ front e j (front o (next_open a i) base) =
        w.open_fds ∙ ap (closing o a i) v.open_fds ∙ closing_second o e a i j base apart in
      (
        record { out = p.pipe; err = q.pipe; open_count = q.open_count; open_fds = q.open_fds },
        rw (f, g),
        record {
          out = w.pipe;
          err = u.pipe;
          open_count = omega (arith, u.open_count, counted);
          open_fds =
              u.open_fds
              ∙ ap (closing e b j) rest
              ∙ closing_first e b j (front o (next_open a i) base);
        },
      )

  -- What is left when the loop ends.
  pub record Done (xs ys : Bytes) (s : Capture) : Type 0 where
    pub out : Filled xs s.out.buffer
    pub err : Filled ys s.err.buffer
    pub open_fds : s.open_fds ≡ base

  both_closed :
      (rounds : List Round) (xs ys : Bytes) (s : Capture)
      → At false false xs ys s
      → capture junk rounds s ≡ ok s
  unfolding capture
  both_closed [] xs ys s v = rw (le→ltb 0 s.open_count (omega (arith, v.open_count)))
  both_closed (poll_fails ∷ rounds) xs ys s v = refl
  both_closed (polled a b ∷ rounds) xs ys s v =
      rw (le→ltb 0 s.open_count (omega (arith, v.open_count)))

  next_round :
      (a b : Readiness) (rounds : List Round) (s : Capture) {s' : Capture}
      → 0 < s.open_count
      → serve_both junk a b s ≡ ok s'
      → capture junk (polled a b ∷ rounds) s ≡ capture junk rounds s'
  unfolding capture
  next_round a b rounds s live f = rw (lt→ltb 0 s.open_count live, f)

  pub capture_lem :
      (rounds : List Round) (i j : Bool) (xs ys : Bytes) (s : Capture)
      → At i j xs ys s
      → Small rounds
      → WillEnd of_stdout i rounds
      → WillEnd of_stderr j rounds
      → length xs + length (remaining of_stdout i rounds) < 2 ^ 60
      → length ys + length (remaining of_stderr j rounds) < 2 ^ 60
      → (s' : Capture) × (capture junk rounds s ≡ ok s')
        × Done (xs ++ remaining of_stdout i rounds) (ys ++ remaining of_stderr j rounds) s'
  capture_lem rounds false false xs ys s v small end_x end_y few_x few_y = (
    s,
    both_closed rounds xs ys s v,
    record {
      out = subst (λ t. Filled t s.out.buffer) (sym (append-nil xs)) v.out.filled;
      err = subst (λ t. Filled t s.err.buffer) (sym (append-nil ys)) v.err.filled;
      open_fds = v.open_fds;
    },
  )
  capture_lem [] true j xs ys s v small end_x end_y few_x few_y = absurd end_x
  capture_lem [] false true xs ys s v small end_x end_y few_x few_y = absurd end_y
  capture_lem (poll_fails ∷ rounds) true j xs ys s v small end_x end_y few_x few_y = absurd end_x
  capture_lem (poll_fails ∷ rounds) false true xs ys s v small end_x end_y few_x few_y =
      absurd end_y
  capture_lem (polled a b ∷ rounds) i j xs ys s v small end_x end_y few_x few_y =
      let (s₁, f, w) =
        serve_both_lem a b i j xs ys s v small.0 small.1 (omega (arith, few_x))
          (omega (arith, few_y)) in
      let e_x = behind of_stdout a b i rounds xs in
      let e_y = behind of_stderr a b j rounds ys in
      let (s', g, d) =
        capture_lem rounds (next_open a i) (next_open b j) (xs ++ added a i) (ys ++ added b j) s₁ w
          small.2 (WillEnd-step of_stdout a b i rounds end_x)
          (WillEnd-step of_stderr a b j rounds end_y)
          (omega (arith, few_x, length-behind of_stdout a b i rounds xs))
          (omega (arith, few_y, length-behind of_stderr a b j rounds ys)) in
      (
        s',
        next_round a b rounds s (omega (arith, v.open_count)) f ∙ g,
        record {
          out = subst (λ t. Filled t s'.out.buffer) (sym e_x) d.out;
          err = subst (λ t. Filled t s'.err.buffer) (sym e_y) d.err;
          open_fds = d.open_fds;
        },
      )
