-- ===== src/TlsOpen/Safety.antt =====
-- What `kod_tls_open` returns and holds where the calls that it does not check succeed.
use kodlang.Base.{ℕ, ◌≡◌, inl, inr, sym, ap, ap₂, ◌∙◌, Option, none, some, Bool, true, ok}
use kodlang.TlsIo.{no_err, Conn}
use kodlang.Tls.{Texts, is_no_err}
use kodlang.TlsOpen.{World, TrustFile, Peer, in_force, Opening, kod_tls_open}
use kodlang.TlsOpen.Handshake.{Accepts, Each, Each-map, Stop, Shakes}
use kodlang.TlsOpen.Returns.{Comes, Uncreated, opening_lem}

-- The calls that the code does not check: `CFDataCreate` gives an object for the file.
abbrev pub Creates : Option TrustFile → Type 0
Creates none = Unit
Creates (some f) = f.creates_data ≡ true

-- At a stop, both settings of the anchors take effect, and no trust object comes with an error.
pub record Settles (p : Peer) : Type 0 where
  pub set_anchors : p.set_anchors ≡ no_err
  pub set_only : p.set_only ≡ no_err
  pub tidy : p.has_trust ≡ true → p.copied ≡ no_err

Settles-Stop : (p : Peer) → Settles p → Stop Accepts Unit p
unfolding in_force is_no_err
Settles-Stop p s = record {
  passes = λ list (c, h, v). (
    ap is_no_err c,
    h,
    ap₂ (λ a b. p.evaluates (in_force a list) (is_no_err b)) s.set_anchors s.set_only ∙ v,
  );
  accepts = λ list (c, h, v). (
    s.tidy h,
    h,
    sym (ap₂ (λ a b. p.evaluates (in_force a list) (is_no_err b)) s.set_anchors s.set_only) ∙ v,
  );
  tidy = λ u. s.tidy;
}

uncreated : (file : Option TrustFile) → Creates file → Uncreated file → ⊥
uncreated none c u = u
uncreated (some f) c u = cc

module _ (t : Texts) (eio enomem : ℕ) (o : Opening) (created : o.creates_context ≡ true) where
  -- Where a context can be made, CFDataCreate gives an object for the trust file, both settings of
  -- the anchors take effect at every stop of the handshake, no trust object comes with an error,
  -- and the handshake comes to an end for every list of anchors, kod_tls_open returns. With a trust
  -- file, no session is opened unless a non-empty list of certificates was imported from it. A
  -- session then means that the handshake succeeded with the server's certificate accepted against
  -- exactly these anchors alone at every stop, and so did each call of the set-up, with anchors the
  -- request to stop there among them; the context and the session are all that is held in addition
  -- to before, and the status is 0. A result of -1 has one of these reasons: the trust file gave no
  -- anchors, no memory, a set-up call that failed, or a handshake without agreement; nothing more
  -- is held than before, and the status is not 0.
  pub kod_tls_open_lem :
      (file : Option TrustFile) (agreed : Option ℕ → Bool) (w : World)
      → Creates file
      → Each Settles o.steps
      → ((list : Option ℕ) → Shakes Accepts list o.steps (agreed list))
      → (r : Option Conn × World) × (kod_tls_open t eio enomem o file w ≡ ok r)
        × Comes Accepts Unit eio o file agreed w r
  kod_tls_open_lem file agreed w c k d =
      elim (opening_lem t eio enomem o Unit (Each-map o.steps Settles-Stop k) created file agreed w
        d) [ inl r ↦ r | inr (e, u) ↦ absurd (uncreated file c u) ]
