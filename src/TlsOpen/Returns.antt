-- ===== src/TlsOpen/Returns.antt =====
-- What `kod_tls_open` returns and holds, whatever its stops accept.
use kodlang.Base.{
  Bool-cases, ℕ, ◌<◌, ◌≡◌, ◌⊎◌, inl, inr, refl, ap, ap₂, ◌∙◌, List, ◌∷◌, Option, none, some, Bool,
  true, false, ok, undefined, codes, if◌then◌else◌, arith,
}
use kodlang.TlsIo.{no_err, Conn}
use kodlang.Tls.{Texts, tls_failure, is_no_err}
use kodlang.TlsOpen.{
  Resource, session, context, World, gain, os_fails, TrustFile, load_certificates, Opening, set_up,
  drop_anchors, conclude, open_context, open_session, kod_tls_open,
}
use kodlang.TlsOpen.Trust.{Failed, Loads, load_certificates_lem, tls_failure-status}
use kodlang.TlsOpen.Handshake.{Acceptance, Each, Stop, Shakes, handshake_lem}
use kodlang.TlsOpen.SetUp.{set_up-IsSetUp, IsSetUp-set_up}
use kodlang.TlsOpen.Conclude.{
  anchored, Opens, conclude-failed, concludes, no_memory_lem, not_set_up,
}

-- The anchors that a session was opened with: those of the trust file, if there is one.
abbrev pub From : Option TrustFile → Option ℕ → Type 0
From none list = list ≡ none
From (some f) list =
    (name : ℕ) × (count : ℕ) × (list ≡ some name)
    × (f.items ≡ some (name, count))
    × (0 < count)
    × (f.import_status ≡ no_err)

-- A trust file that gives no anchors.
abbrev pub Unloaded : ℕ → Option TrustFile → World → Option Conn × World → Type 0
Unloaded eio none w r = ⊥
Unloaded eio (some f) w r =
    (load_certificates eio f w ≡ ok (none, r.1)) × (r.0 ≡ none) × Failed Unit w.held r.1

-- What the call comes to, where `agreed` says for each list of anchors how the handshake ends.
abbrev pub Comes :
    Acceptance
    → Type 0
    → ℕ
    → Opening
    → Option TrustFile
    → (Option ℕ → Bool)
    → World
    → Option Conn × World
    → Type 0
Comes A S eio o file agreed w r =
    Unloaded eio file w r
    ⊎ ((list : Option ℕ) × From file list × Opens A S o list (agreed list) w.held r)

-- The file's data was not made into an object.
abbrev pub Uncreated : Option TrustFile → Type 0
Uncreated none = ⊥
Uncreated (some f) = f.creates_data ≡ false

module _ (t : Texts) (eio enomem : ℕ) (o : Opening) {A : Acceptance} (S : Type 0)
    (stops : Each (Stop A S) o.steps) where
  open_context_lem :
      (list : Option ℕ) (agreed : Bool) (w : World) (held : List Resource)
      → w.held ≡ context ∷ session ∷ anchored list held
      → Shakes A list o.steps agreed
      → (r : Option Conn × World) × (open_context t eio enomem o list w ≡ ok r)
        × Opens A S o list agreed held r
  unfolding open_context
  open_context_lem list agreed w held h d = elim (Bool-cases (is_no_err (set_up o list))) [
    | inl u ↦
        let (r, e, l) = handshake_lem t list S w d stops in
        (
          conclude list r,
          rw (u, e) refl,
          concludes A S o list agreed w held r h (set_up-IsSetUp o list u) d l,
        )
    | inr u ↦
        let what = codes "could not set up the session" in
        let g = tls_failure t what (set_up o list) w.globals in
        let status = tls_failure-status t what (set_up o list) w.globals in
        let idle : Conn = record { io_errno = 0; timed_out = false; clean_eof = false } in
        (
          conclude list (record { agreed = false; conn = idle; world = record w { globals = g } }),
          rw u refl,
          conclude-failed A S o list agreed idle (record w { globals = g }) held (λ s. h)
              (omega (arith, status)) (inr (inl (λ i. not_set_up u (IsSetUp-set_up o list i)))),
        )
  ]

  module _ (created : o.creates_context ≡ true) where
    open_session_lem :
        (list : Option ℕ) (agreed : Bool) (w : World) (held : List Resource)
        → w.held ≡ anchored list held
        → Shakes A list o.steps agreed
        → (r : Option Conn × World) × (open_session t eio enomem o list w ≡ ok r)
          × Opens A S o list agreed held r
    unfolding open_session gain
    open_session_lem list agreed w held h d =
        let made = open_context t eio enomem o list (gain context (gain session w)) in
        let poor : Option Conn × World = (none, os_fails enomem (drop_anchors list w)) in
        elim (Bool-cases o.has_memory) [
          | inl m ↦
              let (r, e, l) =
                open_context_lem list agreed (gain context (gain session w)) held
                  (ap (λ z. context ∷ session ∷ z) h) d in
              (
                r,
                ap₂ (λ a b. if a then (if b then made else undefined) else ok poor) m created ∙ e,
                l,
              )
          | inr m ↦ (
            poor,
            ap (λ a. if a then (if o.creates_context then made else undefined) else ok poor) m,
            (no_memory_lem S enomem list w held h, inr (inr m)),
          )
        ]

    loaded_lem :
        (f : TrustFile) (agreed : Option ℕ → Bool) (w : World) (x : Option ℕ × World)
        → load_certificates eio f w ≡ ok x
        → Loads f.import_status f.items w.held x
        → ((list : Option ℕ) → Shakes A list o.steps (agreed list))
        → (r : Option Conn × World) × ((elim x.0 [
          | none ↦ ok (none, x.1)
          | some name ↦ open_session t eio enomem o (some name) x.1
        ])
            ≡ ok r)
          × Comes A S eio o (some f) agreed w r
    loaded_lem f agreed w (none, after) e l d = ((none, after), refl, inl (e, refl, l))
    loaded_lem f agreed w (some name, after) q (h, (count, i, c, u)) d =
        let (r, e, l) =
          open_session_lem (some name) (agreed (some name)) after w.held h (d (some name)) in
        (r, e, inr (some name, (name, count, refl, i, c, u), l))

    pub opening_lem :
        (file : Option TrustFile) (agreed : Option ℕ → Bool) (w : World)
        → ((list : Option ℕ) → Shakes A list o.steps (agreed list))
        → ((r : Option Conn × World) × (kod_tls_open t eio enomem o file w ≡ ok r)
            × Comes A S eio o file agreed w r)
          ⊎ (kod_tls_open t eio enomem o file w ≡ undefined) × Uncreated file
    unfolding kod_tls_open
    opening_lem none agreed w d =
        let (r, e, l) = open_session_lem none (agreed none) w w.held refl (d none) in
        inl (r, e, inr (none, refl, l))
    opening_lem (some f) agreed w d = elim (load_certificates_lem eio f w) [
      | inl (x, e, l) ↦ let (r, q, c) = loaded_lem f agreed w x e l d in inl (r, rw e q, c)
      | inr (e, n) ↦ inr (rw e refl, n)
    ]
