-- ===== src/Tcp/Tests.antt =====
-- Connecting and listening with a few addresses, and the theorems at them.
use kodlang.Base.{◌≡◌, refl, inl, [], ◌∷◌, ok, codes, arith}
use kodlang.Base.Int.{pos, negsuc}
use kodlang.Fd.{returned, failed}
use kodlang.Tcp.{
  ask, timeval_of, Errnos, Address, Net, addresses, resolver_error, unresolved, fail, succeed,
  await, kod_tcp_accept, kod_tcp_connect, kod_tcp_idle, kod_tcp_listen, kod_tcp_port,
  kod_tcp_set_timeout,
}
use kodlang.Tcp.Connect.{connected_socket, kod_tcp_connect_lem}
use kodlang.Tcp.Listen.{listening_socket, kod_tcp_listen_lem}
use kodlang.Tcp.Verdict.{
  answered, interrupted, joined, refused, choose, report, AllTries, no_socket, waited, connected,
}

abbrev numbers : Errnos
numbers = record {
  einprogress = 36;
  eintr = 4;
  etimedout = 60;
  econnrefused = 61;
  eaddrnotavail = 49;
}

abbrev quiet : Net
quiet = record { io_errno = 9; gai_message = codes "old"; sockets = [] }

abbrev unsupported : Address
unsupported = record {
  socket = failed 47;
  connect = failed 36;
  polls = λ t. [];
  so_error = returned 0;
  bind = returned tt;
  listen = returned tt;
}

-- Connecting takes a while, and the wait is interrupted once; the name is taken.
abbrev slow : Address
slow = record {
  socket = returned 7;
  connect = failed 36;
  polls = λ t. failed 4 ∷ returned 1 ∷ [];
  so_error = returned 0;
  bind = failed 48;
  listen = returned tt;
}

abbrev free : Address
free = record slow { bind = returned tt; socket = returned 8 }

unknown_host :
    kod_tcp_connect numbers (resolver_error (codes "unknown")) (pos 10) quiet
    ≡ ok (record {
      value = negsuc 0;
      net = record { io_errno = 0; gai_message = codes "unknown"; sockets = [] };
    })
unfolding kod_tcp_connect unresolved
unknown_host = refl

accepts :
    kod_tcp_accept numbers (failed 4 ∷ returned 5 ∷ []) quiet
    ≡ ok (record {
      value = pos 5;
      net = record quiet { io_errno = 0; sockets = connected_socket 5 ∷ [] };
    })
unfolding kod_tcp_accept await succeed ask
accepts = refl

idles : kod_tcp_idle numbers (returned 0 ∷ []) ≡ ok 1
unfolding kod_tcp_idle await
idles = refl

ports : (kod_tcp_port (returned (31, 144)) quiet).value ≡ pos 8080
unfolding kod_tcp_port succeed
ports = refl

sends_fail :
    kod_tcp_set_timeout (λ tv. returned tt) (λ tv. failed 22) (pos 1500) quiet
    ≡ record { value = negsuc 0; net = record quiet { io_errno = 22 } }
unfolding kod_tcp_set_timeout fail
sends_fail = refl

before_zero : timeval_of (negsuc 1499) ≡ record { tv_sec = negsuc 0; tv_usec = negsuc 499999 }
unfolding timeval_of
before_zero = refl

tried : AllTries numbers (pos 10) (unsupported ∷ slow ∷ []) (refused 47 ∷ joined 7 ∷ [])
tried = (
  no_socket refl,
  (
    waited {fd = 7} {err = 36} {ready = returned 1} refl refl (inl refl)
        (interrupted refl (answered refl tt)) connected,
    tt,
  ),
)

kod_tcp_connect_lem_example :
    kod_tcp_connect numbers (addresses (unsupported ∷ slow ∷ [])) (pos 10) quiet
    ≡ ok (
        report connected_socket
          (choose (refused 47 ∷ joined 7 ∷ []) 61)
          (record quiet { gai_message = [] }))
kod_tcp_connect_lem_example =
    kod_tcp_connect_lem numbers (omega arith) (unsupported ∷ slow ∷ []) (refused 47 ∷ joined 7 ∷ [])
      (pos 10) quiet tried

kod_tcp_listen_lem_example :
    kod_tcp_listen numbers (addresses (unsupported ∷ slow ∷ free ∷ [])) quiet
    ≡ report listening_socket (joined 8) (record quiet { gai_message = [] })
kod_tcp_listen_lem_example = kod_tcp_listen_lem numbers (unsupported ∷ slow ∷ free ∷ []) quiet
