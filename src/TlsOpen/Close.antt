-- ===== src/TlsOpen/Close.antt =====
-- A session that is opened and then closed.
use kodlang.Base.{
  ℕ, ◌≡◌, inl, inr, sym, subst, ap, ◌∙◌, Option, none, some, Bool, true, ok, eq_of_ok-eq-ok,
}
use kodlang.TlsIo.{Conn}
use kodlang.Tls.{Texts}
use kodlang.TlsOpen.{
  session, context, release, World, lose, Peer, TrustFile, Opening, kod_tls_open, kod_tls_close,
}
use kodlang.TlsOpen.Trust.{Passes}
use kodlang.TlsOpen.Handshake.{Stop, Each-all, Shakes}
use kodlang.TlsOpen.Returns.{Comes, opening_lem}

close_opened :
    (eio : ℕ) (o : Opening) (file : Option TrustFile) (agreed : Option ℕ → Bool) (w after : World)
    (conn : Conn)
    → Comes Passes ⊥ eio o file agreed w (some conn, after)
    → (kod_tls_close after).held ≡ w.held
unfolding kod_tls_close lose release
close_opened eio o none agreed w after conn (inl x) = absurd x
close_opened eio o (some f) agreed w after conn (inl (l, e, x)) = cc
close_opened eio o file agreed w after conn (inr (list, from, (u, d, h, z))) =
    ap (λ r. release session (release context r)) h

-- What is held after a failure does not matter here.
any_stop : (p : Peer) → Stop Passes ⊥ p
any_stop p = record { passes = λ list a. a; accepts = λ list a. a; tidy = λ x. absurd x }

module _ (t : Texts) (eio enomem : ℕ) (o : Opening) (created : o.creates_context ≡ true) where
  -- Where a context can be made, the handshake comes to an end for every list of anchors, and
  -- kod_tls_open opens a session, kod_tls_close on what it left gives back everything that was held
  -- in between: after it the same is held as before.
  pub kod_tls_close-open :
      (file : Option TrustFile) (agreed : Option ℕ → Bool) (w after : World) (conn : Conn)
      → ((list : Option ℕ) → Shakes Passes list o.steps (agreed list))
      → kod_tls_open t eio enomem o file w ≡ ok (some conn, after)
      → (kod_tls_close after).held ≡ w.held
  kod_tls_close-open file agreed w after conn d e =
      elim (opening_lem t eio enomem o ⊥ (Each-all (Stop Passes ⊥) o.steps any_stop) created file
        agreed w d) [
          | inl (r, f, c) ↦
              close_opened eio o file agreed w after conn
                (subst (Comes Passes ⊥ eio o file agreed w) (eq_of_ok-eq-ok (sym f ∙ e)) c)
          | inr (f, u) ↦ absurd (cc)
        ]
