-- ===== src/Tcp/Listen.antt =====
-- `kod_tcp_listen` over all addresses of a name.
use kodlang.Base.{ℕ, ◌≡◌, ◌∙◌, refl, List, [], ◌∷◌, map, arith, true, false}
use kodlang.Fd.{Answer, returned, failed}
use kodlang.Tcp.{
  so_nosigpipe, so_reuseaddr, new_socket, ask, Errnos, Address, Socket, Net, Returned, fail,
  succeed, addresses, unresolved, close_socket, bound, listen_loop, kod_tcp_listen,
}
use kodlang.Tcp.Verdict.{Verdict, joined, refused, choose, report}

-- An attempt at one address: the socket, then its name, then the queue.
abbrev listening : Answer (Unit {0}) → ℕ → Verdict
listening (returned u) fd = joined fd
listening (failed err) fd = refused err

abbrev named : Answer (Unit {0}) → Answer (Unit {0}) → ℕ → Verdict
named (returned u) l fd = listening l fd
named (failed err) l fd = refused err

abbrev made : Answer ℕ → Address → Verdict
made (returned fd) a = named a.bind a.listen fd
made (failed err) a = refused err

abbrev pub attempt : Address → Verdict
attempt a = made a.socket a

-- The socket that is handed out.
abbrev pub listening_socket : ℕ → Socket
listening_socket fd = record {
  fd = fd;
  nonblocking = false;
  cloexec = true;
  asked = so_reuseaddr ∷ so_nosigpipe ∷ [];
}

ask_lem :
    (fd : ℕ) (sockets : List Socket)
    → ask fd so_reuseaddr (new_socket fd ∷ sockets) ≡ listening_socket fd ∷ sockets
unfolding ask
ask_lem fd sockets = ground arith

close_made :
    (fd : ℕ) (sockets : List Socket) → close_socket fd (listening_socket fd ∷ sockets) ≡ sockets
unfolding close_socket
close_made fd sockets = ground arith

abbrev continue : List Address → Net → Verdict → Returned
continue list net (joined fd) = report listening_socket (joined fd) net
continue list net (refused err) = listen_loop list err net

listen_loop_step :
    (list : List Address) (last : ℕ) (net : Net) (a : Address)
    → listen_loop (a ∷ list) last net ≡ continue list net (attempt a)
unfolding listen_loop bound succeed
listen_loop_step list last net a = grind (arith, close_made, ask_lem)

listen_loop_lem :
    (list : List Address) (last : ℕ) (net : Net)
    → listen_loop list last net ≡ report listening_socket (choose (map attempt list) last) net
listen_loop_lem [] last net = unfold listen_loop fail in refl
listen_loop_lem (a ∷ list) last net =
    listen_loop_step list last net a
    ∙ (elim (attempt a)
        as (λ v.
          continue list net v ≡ report listening_socket (choose (v ∷ map attempt list) last) net) [
            | joined fd ↦ refl
            | refused err ↦ listen_loop_lem list err net
          ])

module _ (e : Errnos) where
  -- For resolved addresses, kod_tcp_listen returns the descriptor of the first one where a socket
  -- is made, bound and listens, with errno 0 and that socket, close-on-exec and with SO_NOSIGPIPE
  -- and SO_REUSEADDR asked for, as the only one added. If there is none it returns -1 with the
  -- error of the last address (EADDRNOTAVAIL for no address), and no socket is left open. The
  -- resolver's message is cleared.
  pub kod_tcp_listen_lem :
      (list : List Address) (net : Net)
      → kod_tcp_listen e (addresses list) net
        ≡ report listening_socket
            (choose (map attempt list) e.eaddrnotavail)
            (record net { gai_message = [] })
  unfolding kod_tcp_listen unresolved
  kod_tcp_listen_lem list net =
      listen_loop_lem list e.eaddrnotavail (record net { gai_message = [] })
