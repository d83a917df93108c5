-- ===== src/Tcp/Connect.antt =====
-- `kod_tcp_connect` over all addresses of a name.
use kodlang.Base.{
  ℕ, ◌≡◌, ◌≢◌, ◌⊎◌, inl, inr, refl, subst, ◌∙◌, List, [], ◌∷◌, true, false, not, ◌&&◌, Run, ok,
  ◌==◌, if◌then◌else◌, arith,
}
use kodlang.Base.Int.{ℤ}
use kodlang.Fd.{Answer, returned, failed}
use kodlang.Tcp.{
  so_nosigpipe, tcp_nodelay, new_socket, ask, Errnos, Address, Socket, Net, Returned, fail, succeed,
  addresses, unresolved, close_socket, get_nonblocking, set_nonblocking, Within, after_poll,
  connect_within, connect_loop, kod_tcp_connect,
}
use kodlang.Tcp.Verdict.{
  Verdict, joined, refused, Waited, poll_failed, timed_out, unknown, rejected_late, connected,
  Tries, no_socket, at_once, rejected, waited, AllTries, await_lem, choose, report,
}

Answer-cases : (r : Answer ℕ) → ((err : ℕ) × (r ≡ failed err)) ⊎ ((n : ℕ) × (r ≡ returned n))
Answer-cases (failed err) = inl (err, refl)
Answer-cases (returned n) = inr (n, refl)

-- The socket that is handed out.
abbrev pub connected_socket : ℕ → Socket
connected_socket fd = record {
  fd = fd;
  nonblocking = false;
  cloexec = true;
  asked = tcp_nodelay ∷ so_nosigpipe ∷ [];
}

back_lem :
    (fd : ℕ) (sockets : List Socket)
    → set_nonblocking fd
        (get_nonblocking fd (new_socket fd ∷ sockets))
        (set_nonblocking fd true (new_socket fd ∷ sockets))
      ≡ new_socket fd ∷ sockets
unfolding set_nonblocking get_nonblocking
back_lem fd sockets = ground arith

close_lem :
    (fd : ℕ) (sockets : List Socket)
    → close_socket fd (set_nonblocking fd true (new_socket fd ∷ sockets)) ≡ sockets
unfolding set_nonblocking close_socket
close_lem fd sockets = ground arith

ask_lem :
    (fd : ℕ) (sockets : List Socket)
    → ask fd tcp_nodelay (new_socket fd ∷ sockets) ≡ connected_socket fd ∷ sockets
unfolding ask
ask_lem fd sockets = ground arith

-- The error number that stands for a verdict, and the descriptor of a connected one.
abbrev ErrorOf : ℕ → Verdict → ℕ → Type 0
ErrorOf fd (joined d) err = (d ≡ fd) × (err ≡ 0)
ErrorOf fd (refused x) err = (err ≡ x) × (x ≢ 0)

module _ (e : Errnos) (nonzero : e.etimedout ≢ 0) where
  after_poll-ErrorOf :
      {fd : ℕ} {ready so : Answer ℕ} {v : Verdict}
      → Waited e fd ready so v
      → ErrorOf fd v (after_poll e ready so)
  unfolding after_poll
  after_poll-ErrorOf (poll_failed h) = (refl, h)
  after_poll-ErrorOf timed_out = (refl, nonzero)
  after_poll-ErrorOf (unknown h) = (refl, h)
  after_poll-ErrorOf rejected_late = (refl, omega arith)
  after_poll-ErrorOf connected = (refl, refl)

  -- What `connect_within` returns for a socket with a verdict.
  abbrev Leaves : ℕ → List Socket → Verdict → Within → Type 0
  Leaves fd sockets (joined d) w = (d ≡ fd) × (w.err ≡ 0) × (w.sockets ≡ new_socket fd ∷ sockets)
  Leaves fd sockets (refused x) w = (w.err ≡ x) × (x ≢ 0) × (close_socket fd w.sockets ≡ sockets)

  waited_lem :
      (fd rc : ℕ) (sockets back waiting : List Socket) (v : Verdict)
      → back ≡ new_socket fd ∷ sockets
      → close_socket fd waiting ≡ sockets
      → ErrorOf fd v rc
      → Leaves fd sockets v (record { err = rc; sockets = if rc == 0 then back else waiting })
  waited_lem fd rc sockets back waiting (joined d) b c (p, q) = (p, q, rw q b)
  waited_lem fd rc sockets back waiting (refused x) b c (p, q) =
      let not_zero : (rc == 0) ≡ false = ground (arith, p, q) in (p, q, rw not_zero c)

  connect_within_lem :
      (timeout_ms : ℤ) (fd : ℕ) (a : Address) (sockets : List Socket) {v : Verdict}
      → a.socket ≡ returned fd
      → Tries e timeout_ms a v
      → (w : Within) × (connect_within e fd a timeout_ms (new_socket fd ∷ sockets) ≡ ok w)
        × Leaves fd sockets v w
  unfolding connect_within
  connect_within_lem timeout_ms fd a sockets s (no_socket p) = cc
  connect_within_lem timeout_ms fd a sockets s (at_once p c) =
      (_, rw c, (cc, refl, back_lem fd sockets))
  connect_within_lem timeout_ms fd a sockets s (rejected p c h k nz) =
      (_, rw c (ground (arith, h, k)), (refl, nz, close_lem fd sockets))
  connect_within_lem timeout_ms fd a sockets {v} s (waited {fd = d} {err} {ready} p c h r w) =
      let one : (not (err == e.einprogress) && not (err == e.eintr)) ≡ false = ground (arith, h) in
      let same : d ≡ fd = cc in
      (
        _,
        rw (c, one, await_lem e r),
        waited_lem fd (after_poll e ready a.so_error) sockets _ _ _ (back_lem fd sockets)
            (close_lem fd sockets)
            (subst (λ f. ErrorOf f v (after_poll e ready a.so_error)) same (after_poll-ErrorOf w)),
      )

  abbrev continue : List Address → ℤ → Net → Verdict → Run Returned
  continue list timeout_ms net (joined fd) = ok (report connected_socket (joined fd) net)
  continue list timeout_ms net (refused err) = connect_loop e list err timeout_ms net

  unmade :
      {timeout_ms : ℤ} {a : Address} {v : Verdict} (err : ℕ)
      → a.socket ≡ failed err
      → Tries e timeout_ms a v
      → v ≡ refused err
  unmade err p (no_socket q) = cc
  unmade err p (at_once q c) = cc
  unmade err p (rejected q c h k nz) = cc
  unmade err p (waited q c h r w) = cc

  after_attempt :
      (list : List Address) (timeout_ms : ℤ) (net : Net) (fd : ℕ) (v : Verdict) (w : Within)
      → Leaves fd net.sockets v w
      → (if w.err == 0
          then ok (succeed fd (record net { sockets = ask fd tcp_nodelay w.sockets }))
          else connect_loop e list w.err timeout_ms
              (record net { sockets = close_socket fd w.sockets }))
        ≡ continue list timeout_ms net v
  unfolding succeed
  after_attempt list timeout_ms net fd (joined d) w (same, fine, left) =
      rw (fine, left, ask_lem fd net.sockets, same)
  after_attempt list timeout_ms net fd (refused x) w (same, nz, left) =
      let not_zero : (x == 0) ≡ false = ground (arith, nz) in rw (same, not_zero, left)

  connect_loop_step :
      (list : List Address) (last : ℕ) (timeout_ms : ℤ) (net : Net) (a : Address) (v : Verdict)
      → Tries e timeout_ms a v
      → connect_loop e (a ∷ list) last timeout_ms net ≡ continue list timeout_ms net v
  unfolding connect_loop
  connect_loop_step list last timeout_ms net a v t = elim (Answer-cases a.socket) [
    | inl (err, p) ↦ rw (p, unmade err p t)
    | inr (fd, p) ↦
        let (w, f, l) = connect_within_lem timeout_ms fd a net.sockets p t in
        rw (p, f) (after_attempt list timeout_ms net fd v w l)
  ]

  connect_loop_lem :
      (list : List Address) (vs : List Verdict) (last : ℕ) (timeout_ms : ℤ) (net : Net)
      → AllTries e timeout_ms list vs
      → connect_loop e list last timeout_ms net ≡ ok (report connected_socket (choose vs last) net)
  connect_loop_lem [] [] last timeout_ms net t = unfold connect_loop fail in refl
  connect_loop_lem [] (v ∷ vs) last timeout_ms net t = absurd t
  connect_loop_lem (a ∷ list) [] last timeout_ms net t = absurd t
  connect_loop_lem (a ∷ list) (joined fd ∷ vs) last timeout_ms net t =
      connect_loop_step list last timeout_ms net a (joined fd) t.0
  connect_loop_lem (a ∷ list) (refused err ∷ vs) last timeout_ms net t =
      connect_loop_step list last timeout_ms net a (refused err) t.0
      ∙ connect_loop_lem list vs err timeout_ms net t.1

  -- For resolved addresses that each come to a verdict, with ETIMEDOUT not 0, kod_tcp_connect
  -- returns the descriptor of the first address that connects, with errno 0 and that socket,
  -- blocking again, close-on-exec, and with SO_NOSIGPIPE and TCP_NODELAY asked for, as the only one
  -- added. If none connects it returns -1 with the error of the last address (ECONNREFUSED for no
  -- address), and no socket is left open. The resolver's message is cleared.
  pub kod_tcp_connect_lem :
      (list : List Address) (vs : List Verdict) (timeout_ms : ℤ) (net : Net)
      → AllTries e timeout_ms list vs
      → kod_tcp_connect e (addresses list) timeout_ms net
        ≡ ok (report connected_socket (choose vs e.econnrefused) (record net { gai_message = [] }))
  unfolding kod_tcp_connect unresolved
  kod_tcp_connect_lem list vs timeout_ms net t =
      connect_loop_lem list vs e.econnrefused timeout_ms (record net { gai_message = [] }) t
