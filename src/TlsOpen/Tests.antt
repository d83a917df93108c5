-- ===== src/TlsOpen/Tests.antt =====
-- Opening a session with a trust file, and the theorem at it.
use kodlang.Base.{ℕ, ◌≡◌, refl, [], ◌∷◌, none, some, true, false, Option, Bool, ok, ◌==◌}
use kodlang.Base.Int.{pos}
use kodlang.Fd.{returned}
use kodlang.TlsIo.{no_err, server_auth_completed, Conn}
use kodlang.Tls.{Texts, is_no_err}
use kodlang.TlsOpen.{
  World, TrustFile, Peer, Opening, context, session, load_certificates, load_opened,
  read_certificates, imported, open_session, open_context, set_up, first_error, handshake,
  check_trust, in_force, judged, conclude, drop_anchors, gain, lose, release, kod_tls_close,
  kod_tls_open,
}
use kodlang.TlsOpen.Handshake.{Accepts, Shakes, done, accepted, rejected}
use kodlang.TlsOpen.Trust.{Passes}
use kodlang.TlsOpen.Close.{kod_tls_close-open}
use kodlang.TlsOpen.Returns.{Comes}
use kodlang.TlsOpen.Safety.{Settles, kod_tls_open_lem}

abbrev calm : Conn
calm = record { io_errno = 0; timed_out = false; clean_eof = false }

abbrev texts : Texts
texts = record { error_text = λ st. none; number = λ st. []; eagain = 35 }

abbrev begin : World
begin = record { globals = record { g_status = 0; g_message = []; io_errno = 0 }; held = [] }

-- One certificate, in the list 5.
abbrev authority : TrustFile
authority = record {
  opened = returned tt;
  size = pos 1200;
  has_memory = true;
  got = 1200;
  creates_data = true;
  import_status = no_err;
  items = some (5, 1);
}

-- The server's certificate is signed by one in the list 5, which the system does not have.
abbrev known_by_5 : Option ℕ → Bool
known_by_5 none = false
known_by_5 (some list) = list == 5

abbrev server : Peer
server = record {
  copied = no_err;
  has_trust = true;
  set_anchors = no_err;
  set_only = no_err;
  evaluates = λ list only. known_by_5 list;
  has_error = false;
  description = none;
}

abbrev opening : Opening
opening = record {
  has_memory = true;
  creates_context = true;
  io_funcs = no_err;
  connection = no_err;
  protocol_min = no_err;
  peer_name = no_err;
  break_on_auth = no_err;
  steps =
      record { status = server_auth_completed; conn = calm; peer = server }
      ∷ record { status = no_err; conn = calm; peer = server }
      ∷ [];
}

opens :
    kod_tls_open texts 5 12 opening (some authority) begin
    ≡ ok (some calm, record begin { held = context ∷ session ∷ [] })
unfolding kod_tls_open load_certificates load_opened read_certificates imported open_session
    open_context set_up first_error handshake check_trust in_force judged conclude drop_anchors gain
    lose release is_no_err
opens = refl

Shakes-agreed :
    (list : Option ℕ) (agreed : Bool)
    → known_by_5 list ≡ agreed
    → Shakes Accepts list opening.steps agreed
unfolding is_no_err
Shakes-agreed list true h = accepted refl (refl, refl, h) (done refl)
Shakes-agreed list false h = rejected refl (λ a. cc)

opening-Shakes : (list : Option ℕ) → Shakes Accepts list opening.steps (known_by_5 list)
opening-Shakes list = Shakes-agreed list (known_by_5 list) refl

settled : Settles server
settled = record { set_anchors = refl; set_only = refl; tidy = λ h. refl }

Passes-agreed :
    (list : Option ℕ) (agreed : Bool)
    → known_by_5 list ≡ agreed
    → Shakes Passes list opening.steps agreed
unfolding is_no_err in_force
Passes-agreed list true h = accepted refl (refl, refl, h) (done refl)
Passes-agreed list false h = rejected refl (λ a. cc)

opening-Passes : (list : Option ℕ) → Shakes Passes list opening.steps (known_by_5 list)
opening-Passes list = Passes-agreed list (known_by_5 list) refl

kod_tls_open_lem_example :
    (r : Option Conn × World) × (kod_tls_open texts 5 12 opening (some authority) begin ≡ ok r)
    × Comes Accepts Unit 5 opening (some authority) known_by_5 begin r
kod_tls_open_lem_example =
    kod_tls_open_lem texts 5 12 opening refl (some authority) known_by_5 begin refl
      (settled, (settled, tt)) opening-Shakes

kod_tls_close-open_example :
    (kod_tls_close (record begin { held = context ∷ session ∷ [] })).held ≡ []
kod_tls_close-open_example =
    kod_tls_close-open texts 5 12 opening refl (some authority) known_by_5 begin
      (record begin { held = context ∷ session ∷ [] }) calm opening-Passes opens
