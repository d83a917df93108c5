-- ===== src/TlsOpen.antt =====
-- Opening a session in stdlib/net/tls.c: the trust file, the set-up, the handshake and the check of
-- the server's certificate. The answers of the system and of the frameworks are arguments.
pub mod Trust
pub mod Handshake
pub mod SetUp
pub mod Conclude
pub mod Returns
pub mod Safety
pub mod Close
mod Tests
use kodlang.Base.{
  ℕ, ◌*◌, Bytes, List, [], ◌∷◌, Option, none, some, Bool, true, false, not, ◌&&◌, ◌||◌, Run, ok,
  undefined, out_of_fuel, ◌>>=◌, codes, take, ltb, ◌==◌, if◌then◌else◌,
}
use kodlang.Base.Int.{ℤ, pos, negsuc, ltb_ℤ, pos_part}
use kodlang.Fd.{Answer, returned, failed}
use kodlang.TlsIo.{OsStatus, no_err, server_auth_completed, Conn}
use kodlang.Tls.{
  Globals, Texts, os_failure, tls_failure, tls_failure_text, report_failure, is_no_err,
}

-- What the code allocates or holds a reference to.
pub data Resource : Type 0 where
  file : Resource
  bytes : Resource
  cert_data : Resource
  anchors : Resource
  session : Resource
  context : Resource
  trust : Resource
  error : Resource

abbrev pub tag : Resource → ℕ
tag file = 0
tag bytes = 1
tag cert_data = 2
tag anchors = 3
tag session = 4
tag context = 5
tag trust = 6
tag error = 7

-- `fclose`, `free` and `CFRelease`, on what is held.
unfoldable pub release : Resource → List Resource → List Resource
release r [] = []
release r (h ∷ held) = if tag h == tag r then held else h ∷ release r held

pub record World : Type 0 where
  pub globals : Globals
  pub held : List Resource

unfoldable pub gain : Resource → World → World
gain r w = record w { held = r ∷ w.held }

unfoldable pub lose : Resource → World → World
lose r w = record w { held = release r w.held }

unfoldable pub os_fails : ℕ → World → World
os_fails err w = record w { globals = os_failure err w.globals }

unfoldable pub text_fails : Bytes → World → World
text_fails text w = record w { globals = tls_failure_text text w.globals }

-- The trust file: `ftell`, whether there is memory for it, what `fread` gives, whether
-- `CFDataCreate` gives an object, and what `SecItemImport` makes of it: a list by its identity and
-- its count, or NULL.
pub record TrustFile : Type 0 where
  pub opened : Answer (Unit {0})
  pub size : ℤ
  pub has_memory : Bool
  pub got : ℕ
  pub creates_data : Bool
  pub import_status : OsStatus
  pub items : Option (ℕ × ℕ)

-- What follows `SecItemImport`.
unfoldable pub imported : OsStatus → Option (ℕ × ℕ) → World → Option ℕ × World
imported st none w = (none, text_fails (codes "trust file holds no certificate") w)
imported st (some (list, count)) w =
    if not (is_no_err st) || count == 0
    then (
      none,
      text_fails (codes "trust file holds no certificate") (lose anchors (gain anchors w)),
    )
    else (some list, gain anchors w)

-- With the file open and `malloc` done, which gave memory or not. `CFRelease(NULL)` is undefined.
unfoldable pub read_certificates : ℕ → TrustFile → Bool → World → Run (Option ℕ × World)
read_certificates eio f true w =
    let w₁ = lose bytes (lose file (gain bytes w)) in
    if not (f.got == pos_part f.size)
    then ok (none, os_fails eio w₁)
    else if f.creates_data
    then ok (imported f.import_status f.items (lose cert_data (gain cert_data w₁)))
    else undefined
read_certificates eio f false w = ok (none, os_fails eio (lose file w))

-- What follows `fopen`.
unfoldable pub load_opened : ℕ → TrustFile → Answer (Unit {0}) → World → Run (Option ℕ × World)
load_opened eio f (failed err) w = ok (none, os_fails err w)
load_opened eio f (returned u) w =
    if ltb_ℤ f.size (pos 0) || ltb_ℤ (pos (16 * 1048576)) f.size
    then ok (none, text_fails (codes "trust file is too large") (lose file (gain file w)))
    else read_certificates eio f f.has_memory (gain file w)

-- `none` is NULL.
unfoldable pub load_certificates : ℕ → TrustFile → World → Run (Option ℕ × World)
load_certificates eio f w = load_opened eio f f.opened w

-- The server's certificates at a stop of the handshake: the result of `SSLCopyPeerTrust`, whether it
-- gave a trust object, the results of `SecTrustSetAnchorCertificates` and
-- `SecTrustSetAnchorCertificatesOnly`, whether the object holds against the anchors set on it, if
-- there are any, alone or beside those of the system, whether there is an error object, and its
-- description where it has one that fits.
pub record Peer : Type 0 where
  pub copied : OsStatus
  pub has_trust : Bool
  pub set_anchors : OsStatus
  pub set_only : OsStatus
  pub evaluates : (anchors : Option ℕ) (only : Bool) → Bool
  pub has_error : Bool
  pub description : Option Bytes

unfoldable pub describe : Option Bytes → World → World
describe none w = w
describe (some text) w = record w {
  globals = let g = w.globals in record g { g_message = take 511 text };
}

-- From `SecTrustEvaluateWithError` on: what it says, and whether it gives an error object.
unfoldable pub judged : Bool → Bool → Option Bytes → World → Bool × World
judged true true text w = (true, lose trust (lose error (gain error w)))
judged true false text w = (true, lose trust w)
judged false true text w =
    let failing = text_fails (codes "certificate is not trusted") (gain error w) in
    (false, lose trust (lose error (describe text failing)))
judged false false text w = (false, lose trust (text_fails (codes "certificate is not trusted") w))

-- The anchors that a trust object has after `SecTrustSetAnchorCertificates`.
unfoldable pub in_force : OsStatus → Option ℕ → Option ℕ
in_force st list = if is_no_err st then list else none

-- Whether the result is not -1.
unfoldable pub check_trust : Texts → Peer → Option ℕ → World → Bool × World
check_trust t p list w =
    if not (is_no_err p.copied) || not p.has_trust
    then (
      false,
      let kept = if p.has_trust then gain trust w else w in
          record kept {
            globals = tls_failure t (codes "no server certificate") p.copied w.globals;
          },
    )
    else let holds = p.evaluates (in_force p.set_anchors list) (is_no_err p.set_only) in
      judged holds p.has_error p.description (gain trust w)

-- One `SSLHandshake`: its result, the connection after it, and the server's certificates.
pub record Step : Type 0 where
  pub status : OsStatus
  pub conn : Conn
  pub peer : Peer

-- What the loop leaves: whether the result is not -1, and the connection.
pub record Shaken : Type 0 where
  pub agreed : Bool
  pub conn : Conn
  pub world : World

unfoldable pub handshake_failed : Texts → OsStatus → Conn → World → Shaken
handshake_failed t st c w =
    let (after, g) = report_failure t (codes "TLS handshake failed") st c w.globals in
    record { agreed = false; conn = after; world = record w { globals = g } }

unfoldable pub handshake : Texts → List Step → Option ℕ → World → Run Shaken
handshake t [] list w = out_of_fuel
handshake t (s ∷ steps) list w = elim s.status [
  | no_err ↦ ok (record { agreed = true; conn = s.conn; world = w })
  | server_auth_completed ↦
      let (trusted, after) = check_trust t s.peer list w in
      let rest = handshake t steps list after in
      if trusted then rest else ok (record { agreed = false; conn = s.conn; world = after })
  | st ↦ ok (handshake_failed t st s.conn w)
]

-- The answers to the calls of `kod_tls_open` itself. The statuses are those of the five calls that
-- set the session up.
pub record Opening : Type 0 where
  pub has_memory : Bool
  pub creates_context : Bool
  pub io_funcs : OsStatus
  pub connection : OsStatus
  pub protocol_min : OsStatus
  pub peer_name : OsStatus
  pub break_on_auth : OsStatus
  pub steps : List Step

-- `if (st == noErr) st = ...`
unfoldable pub first_error : List OsStatus → OsStatus
first_error [] = no_err
first_error (no_err ∷ rest) = first_error rest
first_error (st ∷ rest) = st

unfoldable pub set_up : Opening → Option ℕ → OsStatus
set_up o none = first_error (o.io_funcs ∷ o.connection ∷ o.protocol_min ∷ o.peer_name ∷ [])
set_up o (some list) =
    first_error (o.io_funcs ∷ o.connection ∷ o.protocol_min ∷ o.peer_name ∷ o.break_on_auth ∷ [])

-- `if (anchors) CFRelease(anchors);`
unfoldable pub drop_anchors : Option ℕ → World → World
drop_anchors none w = w
drop_anchors (some list) w = lose anchors w

-- What follows the `else`; the handle is the session, here with its connection, and `none` is -1.
unfoldable pub conclude : Option ℕ → Shaken → Option Conn × World
conclude list r =
    let w = drop_anchors list r.world in
    if r.agreed
    then (some r.conn, record w { globals = let g = w.globals in record g { g_status = 0 } })
    else (none, lose session (lose context w))

module _ (t : Texts) (eio enomem : ℕ) (o : Opening) where
  -- With a context.
  unfoldable pub open_context : Option ℕ → World → Run (Option Conn × World)
  open_context list w =
      let unready = record w {
        globals = tls_failure t (codes "could not set up the session") (set_up o list) w.globals;
      } in
      let shaken = handshake t o.steps list w >>= λ r. ok (conclude list r) in
      let idle : Conn = record { io_errno = 0; timed_out = false; clean_eof = false } in
      if is_no_err (set_up o list)
      then shaken
      else ok (conclude list (record { agreed = false; conn = idle; world = unready }))

  -- `CFRelease(NULL)` is undefined.
  unfoldable pub open_session : Option ℕ → World → Run (Option Conn × World)
  open_session list w =
      let made = open_context list (gain context (gain session w)) in
      let created = if o.creates_context then made else undefined in
      if o.has_memory then created else ok (none, os_fails enomem (drop_anchors list w))

  -- Without a trust file its name is empty.
  unfoldable pub kod_tls_open : Option TrustFile → World → Run (Option Conn × World)
  kod_tls_open none w = open_session none w
  kod_tls_open (some f) w = do
    loaded ← load_certificates eio f w
    elim loaded.0 [ none ↦ ok (none, loaded.1) | some list ↦ open_session (some list) loaded.1 ]

unfoldable pub kod_tls_close : World → World
kod_tls_close w = lose session (lose context w)
