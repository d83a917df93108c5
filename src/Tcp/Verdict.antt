-- ===== src/Tcp/Verdict.antt =====
-- What an attempt to connect comes to, by the answers of the system.
use kodlang.Base.{ℕ, zero, suc, ◌≡◌, ◌≢◌, ◌⊎◌, List, [], ◌∷◌, ok, arith}
use kodlang.Base.Int.{ℤ, pos, negsuc}
use kodlang.Fd.{Answer, returned, failed}
use kodlang.Fd.Retry.{Final}
use kodlang.Tcp.{Errnos, Address, Net, Socket, Returned, poll_timeout, await}

-- What an attempt at one address comes to: a connected descriptor, or an error number.
pub data Verdict : Type 0 where
  joined : ℕ → Verdict
  refused : ℕ → Verdict

module _ (e : Errnos) where
  -- The first answer that is not an interruption.
  pub data Ready : List (Answer ℕ) → Answer ℕ → Type 0 where
    answered :
        {polls rest : List (Answer ℕ)} {r : Answer ℕ}
        → polls ≡ r ∷ rest
        → Final e.eintr r
        → Ready polls r
    interrupted :
        {polls rest : List (Answer ℕ)} {r : Answer ℕ}
        → polls ≡ failed e.eintr ∷ rest
        → Ready rest r
        → Ready polls r

  -- What the wait for a socket `fd` comes to, by the answers of `poll` and for SO_ERROR.
  pub data Waited (fd : ℕ) : Answer ℕ → Answer ℕ → Verdict → Type 0 where
    poll_failed : {so : Answer ℕ} {err : ℕ} → err ≢ 0 → Waited fd (failed err) so (refused err)
    timed_out : {so : Answer ℕ} → Waited fd (returned zero) so (refused e.etimedout)
    unknown : {n err : ℕ} → err ≢ 0 → Waited fd (returned (suc n)) (failed err) (refused err)
    rejected_late :
        {n err : ℕ} → Waited fd (returned (suc n)) (returned (suc err)) (refused (suc err))
    connected : {n : ℕ} → Waited fd (returned (suc n)) (returned zero) (joined fd)

  -- What an attempt at an address comes to.
  pub data Tries (timeout_ms : ℤ) (a : Address) : Verdict → Type 0 where
    no_socket : {err : ℕ} → a.socket ≡ failed err → Tries timeout_ms a (refused err)
    at_once :
        {fd : ℕ} → a.socket ≡ returned fd → a.connect ≡ returned tt → Tries timeout_ms a (joined fd)
    rejected :
        {fd err : ℕ}
        → a.socket ≡ returned fd
        → a.connect ≡ failed err
        → err ≢ e.einprogress
        → err ≢ e.eintr
        → err ≢ 0
        → Tries timeout_ms a (refused err)
    waited :
        {fd err : ℕ} {ready : Answer ℕ} {v : Verdict}
        → a.socket ≡ returned fd
        → a.connect ≡ failed err
        → (err ≡ e.einprogress) ⊎ (err ≡ e.eintr)
        → Ready (a.polls (poll_timeout timeout_ms)) ready
        → Waited fd ready a.so_error v
        → Tries timeout_ms a v

  abbrev pub AllTries : ℤ → List Address → List Verdict → Type 0
  AllTries timeout_ms [] [] = Unit
  AllTries timeout_ms (a ∷ list) (v ∷ vs) = Tries timeout_ms a v × AllTries timeout_ms list vs
  AllTries timeout_ms _ _ = ⊥

  pub await_lem : {polls : List (Answer ℕ)} {r : Answer ℕ} → Ready polls r → await e polls ≡ ok r
  unfolding await
  await_lem (answered {r = returned n} p f) = rw p
  await_lem (answered {r = failed err} p f) = rw p (ground (arith, f))
  await_lem (interrupted p r) = rw p (ground (arith, await_lem r))

-- The first address that connects, or the error of the last one.
abbrev pub choose : List Verdict → ℕ → Verdict
choose [] last = refused last
choose (joined fd ∷ vs) last = joined fd
choose (refused err ∷ vs) last = choose vs err

-- What the caller gets, and the sockets that are open then: `made` is the one of a descriptor.
abbrev pub report : (ℕ → Socket) → Verdict → Net → Returned
report made (joined fd) net = record {
  value = pos fd;
  net = record net { io_errno = 0; sockets = made fd ∷ net.sockets };
}
report made (refused err) net = record { value = negsuc 0; net = record net { io_errno = err } }
