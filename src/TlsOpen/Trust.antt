-- ===== src/TlsOpen/Trust.antt =====
-- What the trust file and the check of the server's certificate leave behind.
use kodlang.Base.{
  ℕ, ◌*◌, ◌<◌, ◌≡◌, ◌≢◌, ◌⊎◌, inl, inr, refl, ap, Bytes, List, ◌∷◌, Option, none, some, Bool, true,
  false, not, ◌||◌, codes, Run, ok, undefined, ◌==◌, if◌then◌else◌, arith,
}
use kodlang.Base.Int.{pos, pos_part, ltb_ℤ}
use kodlang.Fd.{Answer, returned, failed}
use kodlang.TlsIo.{
  OsStatus, no_err, server_auth_completed, closed_graceful, closed_no_notify, closed_abort,
  would_block, sec_io, other, Conn,
}
use kodlang.Tls.{
  Globals, Texts, os_failure, tls_failure, tls_failure_text, report_failure, is_no_err,
}
use kodlang.Tls.Failing.{tls_failure-some, tls_failure-none}
use kodlang.TlsOpen.{
  Resource, file, anchors, trust, release, World, gain, lose, os_fails, text_fails, TrustFile,
  imported, read_certificates, load_opened, load_certificates, Peer, in_force, describe, judged,
  check_trust,
}

-- A failure: there is a status, and nothing more is held than before, provided `S`.
pub record Failed (S : Type 0) (held : List Resource) (w : World) : Type 0 where
  pub same : S → w.held ≡ held
  pub noted : w.globals.g_status ≢ 0

Option-cases : (x : Option Bytes) → (x ≡ none) ⊎ ((text : Bytes) × (x ≡ some text))
Option-cases none = inl refl
Option-cases (some text) = inr (text, refl)

pub tls_failure-status :
    (t : Texts) (what : Bytes) (st : OsStatus) (g : Globals)
    → (tls_failure t what st g).g_status ≡ 2
tls_failure-status t what st g = elim (Option-cases (t.error_text st)) [
  | inl e ↦ ap (λ r. r.g_status) (tls_failure-none t what g e)
  | inr (text, e) ↦ ap (λ r. r.g_status) (tls_failure-some t what g e)
]

pub report_failure-status :
    (t : Texts) (what : Bytes) (st : OsStatus) (c : Conn) (g : Globals)
    → (report_failure t what st c g).1.g_status ≢ 0
unfolding report_failure os_failure tls_failure_text
report_failure-status t what st c g = ground (arith, tls_failure-status t what st g)

pub is_no_err_lem : (st : OsStatus) → is_no_err st ≡ true → st ≡ no_err
unfolding is_no_err
is_no_err_lem no_err h = refl
is_no_err_lem server_auth_completed h = absurd (cc)
is_no_err_lem closed_graceful h = absurd (cc)
is_no_err_lem closed_no_notify h = absurd (cc)
is_no_err_lem closed_abort h = absurd (cc)
is_no_err_lem would_block h = absurd (cc)
is_no_err_lem sec_io h = absurd (cc)
is_no_err_lem (other n) h = absurd (cc)

-- The anchors that `SecItemImport` made of the file, or a failure.
abbrev pub Loads : OsStatus → Option (ℕ × ℕ) → List Resource → Option ℕ × World → Type 0
Loads st items held (none, w) = Failed Unit held w
Loads st items held (some list, w) =
    (w.held ≡ anchors ∷ held)
    × ((count : ℕ) × (items ≡ some (list, count)) × (0 < count) × (st ≡ no_err))

if_lem :
    {A : Type 0} (P : A → Type 0) (b : Bool) {x y : A}
    → (b ≡ true → P x)
    → (b ≡ false → P y)
    → P (if b then x else y)
if_lem P true f g = f refl
if_lem P false f g = g refl

imported_lem :
    (st : OsStatus) (items : Option (ℕ × ℕ)) (w : World)
    → Loads st items w.held (imported st items w)
unfolding imported gain lose release text_fails tls_failure_text
imported_lem st none w = record { same = λ s. refl; noted = omega arith }
imported_lem st (some (list, count)) w =
    if_lem (Loads st (some (list, count)) w.held) (not (is_no_err st) || count == 0)
      (λ h. record { same = λ s. refl; noted = omega arith })
      (λ h. (refl, (count, refl, ground (arith, h), is_no_err_lem st (ground (arith, h)))))

-- What `load_certificates` comes to: the anchors or a failure, or `CFDataCreate` gave no object.
abbrev pub Loading : TrustFile → List Resource → Run (Option ℕ × World) → Type 0
Loading f held r =
    ((x : Option ℕ × World) × (r ≡ ok x) × Loads f.import_status f.items held x)
    ⊎ (r ≡ undefined) × (f.creates_data ≡ false)

read_certificates_lem :
    (eio : ℕ) (f : TrustFile) (m : Bool) (held : List Resource) (g : Globals)
    → Loading f held (read_certificates eio f m (record { globals = g; held = file ∷ held }))
unfolding read_certificates gain lose release os_fails os_failure
read_certificates_lem eio f false held g =
    inl (_, refl, record { same = λ s. refl; noted = omega arith })
read_certificates_lem eio f true held g =
    if_lem (Loading f held) (not (f.got == pos_part f.size))
      (λ h. inl (_, refl, record { same = λ s. refl; noted = omega arith }))
      (λ h.
        if_lem (Loading f held) f.creates_data
          (λ c.
            inl
              (_, refl, imported_lem f.import_status f.items (record { globals = g; held = held })))
          (λ c. inr (refl, c)))

load_opened_lem :
    (eio : ℕ) (f : TrustFile) (a : Answer (Unit {0})) (w : World)
    → Loading f w.held (load_opened eio f a w)
unfolding load_opened gain lose release os_fails text_fails os_failure tls_failure_text
load_opened_lem eio f (failed err) w =
    inl (_, refl, record { same = λ s. refl; noted = omega arith })
load_opened_lem eio f (returned u) w =
    if_lem (Loading f w.held) (ltb_ℤ f.size (pos 0) || ltb_ℤ (pos (16 * 1048576)) f.size)
      (λ h. inl (_, refl, record { same = λ s. refl; noted = omega arith }))
      (λ h. read_certificates_lem eio f f.has_memory w.held w.globals)

pub load_certificates_lem :
    (eio : ℕ) (f : TrustFile) (w : World) → Loading f w.held (load_certificates eio f w)
unfolding load_certificates
load_certificates_lem eio f w = load_opened_lem eio f f.opened w

-- The server has a certificate that the check lets through, whatever it was evaluated against.
abbrev pub Passes : Peer → Option ℕ → Type 0
Passes p list =
    (is_no_err p.copied ≡ true)
    × (p.has_trust ≡ true)
    × (p.evaluates (in_force p.set_anchors list) (is_no_err p.set_only) ≡ true)

-- `SSLCopyPeerTrust` gives no trust object beside an error.
abbrev pub Tidy : Peer → Type 0
Tidy p = p.has_trust ≡ true → p.copied ≡ no_err

-- A check that passes, with nothing changed, or one that fails.
abbrev pub Checks : Peer → Option ℕ → World → Bool × World → Type 0
Checks p list w (true, after) = Passes p list × (after ≡ w)
Checks p list w (false, after) = (Passes p list → ⊥) × Failed (Tidy p) w.held after

judged_lem :
    (p : Peer) (list : Option ℕ) (v e : Bool) (text : Option Bytes) (w : World)
    → is_no_err p.copied ≡ true
    → p.has_trust ≡ true
    → p.evaluates (in_force p.set_anchors list) (is_no_err p.set_only) ≡ v
    → Checks p list w (judged v e text (gain trust w))
unfolding judged gain lose release text_fails tls_failure_text describe
judged_lem p list true true text w c h k = ((c, h, k), refl)
judged_lem p list true false text w c h k = ((c, h, k), refl)
judged_lem p list false true none w c h k =
    (λ a. cc, record { same = λ s. refl; noted = omega arith })
judged_lem p list false true (some text) w c h k =
    (λ a. cc, record { same = λ s. refl; noted = omega arith })
judged_lem p list false false text w c h k =
    (λ a. cc, record { same = λ s. refl; noted = omega arith })

-- Without a trust object nothing is held for it.
no_stray :
    (p : Peer) (w : World) (has : Bool)
    → p.has_trust ≡ has
    → (not (is_no_err p.copied) || not has) ≡ true
    → Tidy p
    → (if has then gain trust w else w).held ≡ w.held
unfolding is_no_err
no_stray p w true e h s =
    let clean : is_no_err p.copied ≡ true = ap is_no_err (s e) in absurd (ground (arith, h, clean))
no_stray p w false e h s = refl

pub check_trust_lem :
    (t : Texts) (p : Peer) (list : Option ℕ) (w : World) → Checks p list w (check_trust t p list w)
unfolding check_trust
check_trust_lem t p list w =
    if_lem (Checks p list w) (not (is_no_err p.copied) || not p.has_trust)
      (λ h. (
        λ a. ground (arith, h, a),
        record {
          same = no_stray p w p.has_trust refl h;
          noted =
              omega
                (arith, tls_failure-status t (codes "no server certificate") p.copied w.globals);
        },
      ))
      (λ h.
        judged_lem p list (p.evaluates (in_force p.set_anchors list) (is_no_err p.set_only))
          p.has_error p.description w (ground (arith, h)) (ground (arith, h)) refl)
