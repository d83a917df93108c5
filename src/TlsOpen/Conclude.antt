-- ===== src/TlsOpen/Conclude.antt =====
-- What `kod_tls_open` leaves behind its set-up and handshake.
use kodlang.Base.{
  ℕ, ◌≡◌, ◌≢◌, ◌⊎◌, inl, refl, sym, subst, ap, ◌∙◌, List, ◌∷◌, Option, none, some, Bool, true,
  false, arith,
}
use kodlang.TlsIo.{Conn}
use kodlang.Tls.{os_failure}
use kodlang.TlsOpen.{
  Resource, anchors, session, context, release, World, lose, os_fails, Shaken, Opening,
  drop_anchors, conclude,
}
use kodlang.TlsOpen.Trust.{Failed}
use kodlang.TlsOpen.Handshake.{Acceptance, Shakes, Leaves}
use kodlang.TlsOpen.SetUp.{IsSetUp}

abbrev pub anchored : Option ℕ → List Resource → List Resource
anchored none held = held
anchored (some list) held = anchors ∷ held

-- Why there is no session: no memory for it, a set-up that fails, or a handshake that does not end in
-- agreement.
abbrev pub Reason : Opening → Option ℕ → Bool → Type 0
Reason o list agreed = (agreed ≡ false) ⊎ (IsSetUp o list → ⊥) ⊎ (o.has_memory ≡ false)

-- A session: the set-up went through and the handshake came to a connection with a server accepted
-- with the anchors; the context and the session are held. Or a failure for a reason.
abbrev pub Opens :
    Acceptance → Type 0 → Opening → Option ℕ → Bool → List Resource → Option Conn × World → Type 0
Opens A S o list agreed held (some conn, w) =
    IsSetUp o list
    × Shakes A list o.steps true
    × (w.held ≡ context ∷ session ∷ held)
    × (w.globals.g_status ≡ 0)
Opens A S o list agreed held (none, w) = Failed S held w × Reason o list agreed

pub not_set_up : {b : Bool} → b ≡ false → b ≡ true → ⊥
not_set_up e f = cc

drop_lem :
    (list : Option ℕ) (w : World) (held : List Resource)
    → w.held ≡ context ∷ session ∷ anchored list held
    → (drop_anchors list w).held ≡ context ∷ session ∷ held
unfolding drop_anchors lose release
drop_lem none w held h = h
drop_lem (some list) w held h = ap (release anchors) h

drop-status : (list : Option ℕ) (w : World) → (drop_anchors list w).globals ≡ w.globals
unfolding drop_anchors lose
drop-status none w = refl
drop-status (some list) w = refl

module _ (A : Acceptance) (S : Type 0) where
  -- A result of -1 with the context made.
  pub conclude-failed :
      (o : Opening) (list : Option ℕ) (agreed : Bool) (conn : Conn) (w : World)
      (held : List Resource)
      → (S → w.held ≡ context ∷ session ∷ anchored list held)
      → w.globals.g_status ≢ 0
      → Reason o list agreed
      → Opens A S o list agreed held
          (conclude list (record { agreed = false; conn = conn; world = w }))
  unfolding conclude lose release
  conclude-failed o list agreed conn w held h n why = (
    record {
      same = λ s. ap (λ r. release session (release context r)) (drop_lem list w held (h s));
      noted = subst (λ g. g.g_status ≢ 0) (sym (drop-status list w)) n;
    },
    why,
  )

  conclude-agreed :
      (o : Opening) (list : Option ℕ) (conn : Conn) (w : World) (held : List Resource)
      → w.held ≡ context ∷ session ∷ anchored list held
      → IsSetUp o list
      → Shakes A list o.steps true
      → Opens A S o list true held
          (conclude list (record { agreed = true; conn = conn; world = w }))
  unfolding conclude
  conclude-agreed o list conn w held h u d = (u, d, drop_lem list w held h, refl)

  pub concludes :
      (o : Opening) (list : Option ℕ) (agreed : Bool) (w : World) (held : List Resource)
      (r : Shaken)
      → w.held ≡ context ∷ session ∷ anchored list held
      → IsSetUp o list
      → Shakes A list o.steps agreed
      → Leaves S agreed w r
      → Opens A S o list agreed held (conclude list r)
  concludes o list true w held r h u d (a, e) =
      subst
        (λ b.
          Opens A S o list true held
            (conclude list (record { agreed = b; conn = r.conn; world = r.world })))
        (sym a) (conclude-agreed o list r.conn r.world held (ap (λ v. v.held) e ∙ h) u d)
  concludes o list false w held r h u d (a, f) =
      subst
        (λ b.
          Opens A S o list false held
            (conclude list (record { agreed = b; conn = r.conn; world = r.world })))
        (sym a)
        (conclude-failed o list false r.conn r.world held (λ s. f.same s ∙ h) f.noted (inl refl))

pub no_memory_lem :
    (S : Type 0) (enomem : ℕ) (list : Option ℕ) (w : World) (held : List Resource)
    → w.held ≡ anchored list held
    → Failed S held (os_fails enomem (drop_anchors list w))
unfolding os_fails os_failure drop_anchors lose release
no_memory_lem S enomem none w held h = record { same = λ s. h; noted = omega arith }
no_memory_lem S enomem (some list) w held h = record {
  same = λ s. ap (release anchors) h;
  noted = omega arith;
}
