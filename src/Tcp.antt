-- ===== src/Tcp.antt =====
-- The sockets of stdlib/net/tcp.c. What the system answers for an address is part of that address:
-- whether a socket is made for it, and what connecting, waiting, binding and listening come to.
pub mod Verdict
pub mod Connect
pub mod Listen
mod Tests
use kodlang.Base.{
  ℕ, ◌+◌, ◌*◌, ◌/◌, ◌%◌, zero, suc, Bytes, List, [], ◌∷◌, ◌++◌, length, Bool, true, false, not,
  ◌&&◌, Run, ok, out_of_fuel, ◌>>=◌, take, ltb, ◌^◌, ◌-◌, ◌==◌, if◌then◌else◌,
}
use kodlang.Base.Int.{ℤ, pos, negsuc, sub_ℕ}
use kodlang.Fd.{Answer, returned, failed}
use kodlang.Str.{KodStr, kod_str_from_bytes}

-- The error numbers that the code names.
pub record Errnos : Type 0 where
  pub einprogress : ℕ
  pub eintr : ℕ
  pub etimedout : ℕ
  pub econnrefused : ℕ
  pub eaddrnotavail : ℕ

-- An address of the resolver's list, with the answers for it. `polls` are those of `poll`, in order,
-- for a timeout: a number of ready descriptors each.
pub record Address : Type 0 where
  pub socket : Answer ℕ
  pub connect : Answer (Unit {0})
  pub polls : ℤ → List (Answer ℕ)
  pub so_error : Answer ℕ
  pub bind : Answer (Unit {0})
  pub listen : Answer (Unit {0})

-- The options of `setsockopt`, whose result the code ignores.
pub data SocketOption : Type 0 where
  so_nosigpipe : SocketOption
  so_reuseaddr : SocketOption
  tcp_nodelay : SocketOption

-- A socket that is open, its flags O_NONBLOCK and FD_CLOEXEC, and the options asked for, the last
-- one first.
pub record Socket : Type 0 where
  pub fd : ℕ
  pub nonblocking : Bool
  pub cloexec : Bool
  pub asked : List SocketOption

-- What `new_socket` leaves where `socket` gives `fd`.
abbrev pub new_socket : ℕ → Socket
new_socket fd = record { fd = fd; nonblocking = false; cloexec = true; asked = so_nosigpipe ∷ [] }

-- The number behind `kod_io_errno`, `g_gai_message` up to its NUL, and the sockets that are open.
pub record Net : Type 0 where
  pub io_errno : ℕ
  pub gai_message : Bytes
  pub sockets : List Socket

pub record Returned : Type 0 where
  pub value : ℤ
  pub net : Net

unfoldable pub fail : ℕ → Net → Returned
fail err net = record { value = negsuc 0; net = record net { io_errno = err } }

unfoldable pub succeed : ℕ → Net → Returned
succeed value net = record { value = pos value; net = record net { io_errno = 0 } }

-- What `getaddrinfo` answers: addresses, EAI_SYSTEM with an errno, or another failure with its text.
pub data Lookup : Type 0 where
  addresses : List Address → Lookup
  system_error : ℕ → Lookup
  resolver_error : Bytes → Lookup

-- What `resolve` leaves where it returns NULL; `text` is cut to the message buffer.
unfoldable pub unresolved : Lookup → Net → Net
unresolved (addresses list) net = record net { gai_message = [] }
unresolved (system_error err) net = record net { gai_message = []; io_errno = err }
unresolved (resolver_error text) net = record net { gai_message = take 255 text; io_errno = 0 }

-- The cast to `int` keeps the low 32 bits.
unfoldable pub poll_timeout : ℤ → ℤ
poll_timeout (pos ms) = if ltb 2147483647 ms then pos 2147483647 else pos ms
poll_timeout (negsuc n) =
    let low = n % 2 ^ 32 in if ltb low (2 ^ 31) then negsuc low else pos (2 ^ 32 - 1 - low)

-- `close` and the two uses of `fcntl`, on the sockets that are open.
unfoldable pub close_socket : ℕ → List Socket → List Socket
close_socket fd [] = []
close_socket fd (s ∷ rest) = if s.fd == fd then rest else s ∷ close_socket fd rest

unfoldable pub get_nonblocking : ℕ → List Socket → Bool
get_nonblocking fd [] = false
get_nonblocking fd (s ∷ rest) = if s.fd == fd then s.nonblocking else get_nonblocking fd rest

unfoldable pub set_nonblocking : ℕ → Bool → List Socket → List Socket
set_nonblocking fd flag [] = []
set_nonblocking fd flag (s ∷ rest) =
    if s.fd == fd then record s { nonblocking = flag } ∷ rest else s ∷ set_nonblocking fd flag rest

unfoldable pub ask : ℕ → SocketOption → List Socket → List Socket
ask fd option [] = []
ask fd option (s ∷ rest) =
    if s.fd == fd then record s { asked = option ∷ s.asked } ∷ rest else s ∷ ask fd option rest

-- 0 or an error number, and the sockets when `connect_within` returns.
pub record Within : Type 0 where
  pub err : ℕ
  pub sockets : List Socket

-- `bind(...) == 0 && listen(...) == 0`, with the errno of the one that failed.
unfoldable pub bound : Address → Answer (Unit {0})
bound ai = elim ai.bind [ failed err ↦ failed err | returned u ↦ ai.listen ]

unfoldable pub listen_loop : List Address → ℕ → Net → Returned
listen_loop [] last net = fail last net
listen_loop (ai ∷ list) last net = elim ai.socket [
  | failed err ↦ listen_loop list err net
  | returned fd ↦
      let made = ask fd so_reuseaddr (new_socket fd ∷ net.sockets) in
      elim (bound ai) [
        | returned u ↦ succeed fd (record net { sockets = made })
        | failed err ↦ listen_loop list err (record net { sockets = close_socket fd made })
      ]
]

module _ (e : Errnos) where
  -- `do { ready = poll(...); } while (ready < 0 && errno == EINTR);`
  unfoldable pub await : List (Answer ℕ) → Run (Answer ℕ)
  await [] = out_of_fuel
  await (returned n ∷ polls) = ok (returned n)
  await (failed err ∷ polls) =
      let again = await polls in if err == e.eintr then again else ok (failed err)

  -- What follows `poll`: 0 or an error number.
  unfoldable pub after_poll : Answer ℕ → Answer ℕ → ℕ
  after_poll (failed err) so_error = err
  after_poll (returned zero) so_error = e.etimedout
  after_poll (returned (suc n)) (failed err) = err
  after_poll (returned (suc n)) (returned err) = err

  unfoldable pub connect_within : ℕ → Address → ℤ → List Socket → Run Within
  connect_within fd ai timeout_ms sockets =
      let flags = get_nonblocking fd sockets in
      let waiting = set_nonblocking fd true sockets in
      let back = set_nonblocking fd flags waiting in
      elim ai.connect [
        | returned u ↦ ok (record { err = 0; sockets = back })
        | failed err ↦
            if not (err == e.einprogress) && not (err == e.eintr)
            then ok (record { err = err; sockets = waiting })
            else await (ai.polls (poll_timeout timeout_ms)) >>= λ ready.
                let rc = after_poll ready ai.so_error in
                ok (record { err = rc; sockets = if rc == 0 then back else waiting })
      ]

  unfoldable pub connect_loop : List Address → ℕ → ℤ → Net → Run Returned
  connect_loop [] last timeout_ms net = ok (fail last net)
  connect_loop (ai ∷ list) last timeout_ms net = elim ai.socket [
    | failed err ↦ connect_loop list err timeout_ms net
    | returned fd ↦
        connect_within fd ai timeout_ms (new_socket fd ∷ net.sockets) >>= λ (w : Within).
        let closed = record net { sockets = close_socket fd w.sockets } in
        let next = connect_loop list w.err timeout_ms closed in
        let done = record net { sockets = ask fd tcp_nodelay w.sockets } in
        if w.err == 0 then ok (succeed fd done) else next
  ]

  unfoldable pub kod_tcp_connect : Lookup → ℤ → Net → Run Returned
  kod_tcp_connect (addresses list) timeout_ms net =
      connect_loop list e.econnrefused timeout_ms (unresolved (addresses list) net)
  kod_tcp_connect (system_error err) timeout_ms net =
      ok (record { value = negsuc 0; net = unresolved (system_error err) net })
  kod_tcp_connect (resolver_error text) timeout_ms net =
      ok (record { value = negsuc 0; net = unresolved (resolver_error text) net })

  unfoldable pub kod_tcp_listen : Lookup → Net → Returned
  kod_tcp_listen (addresses list) net =
      listen_loop list e.eaddrnotavail (unresolved (addresses list) net)
  kod_tcp_listen (system_error err) net = record {
    value = negsuc 0;
    net = unresolved (system_error err) net;
  }
  kod_tcp_listen (resolver_error text) net = record {
    value = negsuc 0;
    net = unresolved (resolver_error text) net;
  }

  -- `answers` are those of `accept`, in order.
  unfoldable pub kod_tcp_accept : List (Answer ℕ) → Net → Run Returned
  kod_tcp_accept answers net = await answers >>= λ c. elim c [
    | failed err ↦ ok (fail err net)
    | returned fd ↦
        ok (succeed fd (record net { sockets = ask fd tcp_nodelay (new_socket fd ∷ net.sockets) }))
  ]

  -- `answers` are those of `poll` with a timeout of 0; a failure other than EINTR is not idle.
  unfoldable pub kod_tcp_idle : List (Answer ℕ) → Run ℕ
  kod_tcp_idle answers = await answers >>= λ ready. elim ready [
    | failed err ↦ ok 0
    | returned n ↦ ok (if n == 0 then 1 else 0)
  ]

-- What `getsockname` answers: the port's two bytes in network order, for either family.
unfoldable pub kod_tcp_port : Answer (ℕ × ℕ) → Net → Returned
kod_tcp_port (failed err) net = fail err net
kod_tcp_port (returned (high, low)) net = succeed (high * 256 + low) net

-- `struct timeval`
pub record Timeval : Type 0 where
  pub tv_sec : ℤ
  pub tv_usec : ℤ

-- `ms / 1000` and `(ms % 1000) * 1000`, which go towards zero.
unfoldable pub timeval_of : ℤ → Timeval
timeval_of (pos ms) = record { tv_sec = pos (ms / 1000); tv_usec = pos (ms % 1000 * 1000) }
timeval_of (negsuc n) = record {
  tv_sec = sub_ℕ 0 (suc n / 1000);
  tv_usec = sub_ℕ 0 (suc n % 1000 * 1000);
}

-- `set` answers `setsockopt`, first for receiving, then for sending.
unfoldable pub kod_tcp_set_timeout :
    (Timeval → Answer (Unit {0})) → (Timeval → Answer (Unit {0})) → ℤ → Net → Returned
kod_tcp_set_timeout set_receive set_send ms net =
    let tv = timeval_of ms in
    elim (set_receive tv) [
      | failed err ↦ fail err net
      | returned u ↦ elim (set_send tv) [ failed err ↦ fail err net | returned w ↦ succeed 0 net ]
    ]

unfoldable pub kod_tcp_gai_message : (ℕ → ℕ) → Net → Run KodStr
kod_tcp_gai_message junk net =
    kod_str_from_bytes junk (net.gai_message ++ 0 ∷ []) (length net.gai_message)
