-- ===== src/TlsOpen/Handshake.antt =====
-- What `kod_tls_open` returns for a handshake that comes to an end.
use kodlang.Base.{
  ℕ, ◌≡◌, refl, ap, ◌∙◌, List, [], ◌∷◌, Option, Bool, true, false, ok, codes, if◌then◌else◌,
}
use kodlang.TlsIo.{
  OsStatus, no_err, server_auth_completed, closed_graceful, closed_no_notify, closed_abort,
  would_block, sec_io, other,
}
use kodlang.Tls.{Texts}
use kodlang.TlsOpen.{World, check_trust, Peer, Step, Shaken, handshake_failed, handshake}
use kodlang.TlsOpen.Trust.{Failed, Passes, Tidy, Checks, check_trust_lem, report_failure-status}

-- A result of `SSLHandshake` other than success and the stop for the server's certificates.
abbrev pub Breaks : OsStatus → Type 0
Breaks no_err = ⊥
Breaks server_auth_completed = ⊥
Breaks st = Unit

-- What makes a server acceptable with some anchors.
abbrev pub Acceptance : Type 1
Acceptance = Peer → Option ℕ → Type 0

-- The server has a certificate that holds against exactly these anchors alone.
abbrev pub Accepts : Acceptance
Accepts p list = (p.copied ≡ no_err) × (p.has_trust ≡ true) × (p.evaluates list true ≡ true)

-- With these anchors the handshake comes to an end: to a connection with a server that was acceptable
-- at every stop, or to a failure.
pub data Shakes (A : Acceptance) (list : Option ℕ) : List Step → Bool → Type 0 where
  done : {s : Step} {steps : List Step} → s.status ≡ no_err → Shakes A list (s ∷ steps) true
  accepted :
      {s : Step} {steps : List Step} {agreed : Bool}
      → s.status ≡ server_auth_completed
      → A s.peer list
      → Shakes A list steps agreed
      → Shakes A list (s ∷ steps) agreed
  rejected :
      {s : Step} {steps : List Step}
      → s.status ≡ server_auth_completed
      → (A s.peer list → ⊥)
      → Shakes A list (s ∷ steps) false
  broken : {s : Step} {steps : List Step} → Breaks s.status → Shakes A list (s ∷ steps) false

-- At a stop with this server `check_trust` lets through what `A` accepts, and the server is tidy,
-- provided `S`.
pub record Stop (A : Acceptance) (S : Type 0) (p : Peer) : Type 0 where
  pub passes : (list : Option ℕ) → A p list → Passes p list
  pub accepts : (list : Option ℕ) → Passes p list → A p list
  pub tidy : S → Tidy p

abbrev pub Each : (Peer → Type 0) → List Step → Type 0
Each P [] = Unit
Each P (s ∷ steps) = P s.peer × Each P steps

pub Each-all : (P : Peer → Type 0) (steps : List Step) → ((p : Peer) → P p) → Each P steps
Each-all P [] f = tt
Each-all P (s ∷ steps) f = (f s.peer, Each-all P steps f)

pub Each-map :
    {P Q : Peer → Type 0} (steps : List Step)
    → ((p : Peer) → P p → Q p)
    → Each P steps
    → Each Q steps
Each-map [] f e = tt
Each-map (s ∷ steps) f (p, e) = (f s.peer p, Each-map steps f e)

-- What the loop leaves of a world.
abbrev pub Leaves : Type 0 → Bool → World → Shaken → Type 0
Leaves S true w r = (r.agreed ≡ true) × (r.world ≡ w)
Leaves S false w r = (r.agreed ≡ false) × Failed S w.held r.world

passed :
    (p : Peer) (list : Option ℕ) (w : World) (r : Bool × World)
    → Checks p list w r
    → Passes p list
    → r ≡ (true, w)
passed p list w (true, after) (a, e) b = ap (λ x. (true, x)) e
passed p list w (false, after) (n, f) b = absurd (n b)

refused :
    (p : Peer) (list : Option ℕ) (w : World) (r : Bool × World)
    → Checks p list w r
    → (Passes p list → ⊥)
    → (r.0 ≡ false) × Failed (Tidy p) w.held r.1
refused p list w (true, after) (a, e) n = absurd (n a)
refused p list w (false, after) (m, f) n = (refl, f)

module _ (t : Texts) (list : Option ℕ) where
  handshake-done :
      (s : Step) (steps : List Step) (w : World)
      → s.status ≡ no_err
      → handshake t (s ∷ steps) list w ≡ ok (record { agreed = true; conn = s.conn; world = w })
  unfolding handshake
  handshake-done s steps w h = rw h refl

  handshake-stop :
      (s : Step) (steps : List Step) (w : World)
      → s.status ≡ server_auth_completed
      → handshake t (s ∷ steps) list w ≡ (
          let r = check_trust t s.peer list w in
          if r.0
          then handshake t steps list r.1
          else ok (record { agreed = false; conn = s.conn; world = r.1 }))
  unfolding handshake
  handshake-stop s steps w h = rw h refl

  handshake-broken :
      (st : OsStatus) (s : Step) (steps : List Step) (w : World)
      → s.status ≡ st
      → Breaks st
      → handshake t (s ∷ steps) list w ≡ ok (handshake_failed t st s.conn w)
  unfolding handshake
  handshake-broken no_err s steps w h b = absurd b
  handshake-broken server_auth_completed s steps w h b = absurd b
  handshake-broken closed_graceful s steps w h b = rw h refl
  handshake-broken closed_no_notify s steps w h b = rw h refl
  handshake-broken closed_abort s steps w h b = rw h refl
  handshake-broken would_block s steps w h b = rw h refl
  handshake-broken sec_io s steps w h b = rw h refl
  handshake-broken (other n) s steps w h b = rw h refl

  pub handshake_lem :
      {A : Acceptance} (S : Type 0) {steps : List Step} {agreed : Bool} (w : World)
      → Shakes A list steps agreed
      → Each (Stop A S) steps
      → (r : Shaken) × (handshake t steps list w ≡ ok r) × Leaves S agreed w r
  unfolding handshake_failed
  handshake_lem S w (done {s = s} {steps} h) k = (_, handshake-done s steps w h, (refl, refl))
  handshake_lem S w (accepted {s = s} {steps} h a d) (k, ks) =
      let (r, e, l) = handshake_lem S w d ks in
      let go =
        passed s.peer list w (check_trust t s.peer list w) (check_trust_lem t s.peer list w)
          (k.passes list a) in
      (
        r,
        handshake-stop s steps w h
            ∙ ap
                (λ c.
                  if c.0
                  then handshake t steps list c.1
                  else ok (record { agreed = false; conn = s.conn; world = c.1 }))
                go
            ∙ e,
        l,
      )
  handshake_lem S w (rejected {s = s} {steps} h n) (k, ks) =
      let c = check_trust t s.peer list w in
      let (stops, f) =
        refused s.peer list w c (check_trust_lem t s.peer list w) (λ z. n (k.accepts list z)) in
      let last : Shaken = record { agreed = false; conn = s.conn; world = c.1 } in
      (
        last,
        handshake-stop s steps w h
            ∙ ap (λ b. if b then handshake t steps list c.1 else ok last) stops,
        (refl, record { same = λ s. f.same (k.tidy s); noted = f.noted }),
      )
  handshake_lem S w (broken {s = s} {steps} b) k = (
    _,
    handshake-broken s.status s steps w refl b,
    (
      refl,
      record {
        same = λ s. refl;
        noted = report_failure-status t (codes "TLS handshake failed") s.status s.conn w.globals;
      },
    ),
  )
