-- ===== src/Tls.antt =====
-- The sessions of stdlib/net/tls.c: failures, reading, writing and closing. Secure Transport is a
-- parameter; C is the type of its contexts.
pub mod Reading
pub mod Failing
mod Tests
use kodlang.Base.{
  ℕ, ◌+◌, ◌-◌, ◌%◌, ◌^◌, Bytes, List, [], ◌∷◌, ◌++◌, Option, none, some, Bool, true, false, not,
  ◌&&◌, ◌||◌, Run, ok, ◌>>=◌, fresh, memcpy, codes, length, take, ltb, ◌==◌, if◌then◌else◌,
}
use kodlang.Base.Int.{ℤ, pos, negsuc, pos_part, ltb_ℤ}
use kodlang.Fd.{capped}
use kodlang.Str.{KodStr, kod_str_new, kod_str_from_bytes}
use kodlang.TlsIo.{OsStatus, no_err, closed_graceful, closed_no_notify, closed_abort, sec_io, Conn}

-- `g_status`, `g_message` up to its NUL, and the number behind `kod_io_errno`.
pub record Globals : Type 0 where
  pub g_status : ℕ
  pub g_message : Bytes
  pub io_errno : ℕ

-- The results of `os_failure` and its like are -1.
unfoldable pub os_failure : ℕ → Globals → Globals
os_failure err g = record g { g_status = 1; io_errno = err }

unfoldable pub tls_failure_text : Bytes → Globals → Globals
tls_failure_text text g = record g { g_status = 2; g_message = take 511 text }

unfoldable pub is_closed : OsStatus → Bool
is_closed closed_graceful = true
is_closed closed_no_notify = true
is_closed closed_abort = true
is_closed _ = false

unfoldable pub is_sec_io : OsStatus → Bool
is_sec_io sec_io = true
is_sec_io _ = false

unfoldable pub is_no_err : OsStatus → Bool
is_no_err no_err = true
is_no_err _ = false

-- `error_text` is the framework's text for a result, where it has one that fits the message buffer;
-- `number` prints a result as an int. `eagain` is EAGAIN.
pub record Texts : Type 0 where
  pub error_text : OsStatus → Option Bytes
  pub number : OsStatus → Bytes
  pub eagain : ℕ

unfoldable pub tls_failure : Texts → Bytes → OsStatus → Globals → Globals
tls_failure t what code g = elim (t.error_text code) [
  | some text ↦ record g { g_status = 2; g_message = text }
  | none ↦ record g {
    g_status = 2;
    g_message = take 511 (what ++ (codes " (OSStatus " ++ (t.number code ++ codes ")")));
  }
]

-- `failed`, which returns -1: the flags of the connection and the globals that it leaves.
unfoldable pub report_failure : Texts → Bytes → OsStatus → Conn → Globals → Conn × Globals
report_failure t what st c g =
    let text =
      if is_closed st
      then tls_failure_text (codes "connection closed") g
      else tls_failure t what st g in
    let other =
      if is_sec_io st && not (c.io_errno == 0)
      then (record c { io_errno = 0 }, os_failure c.io_errno g)
      else (c, text) in
    if c.timed_out then (record c { timed_out = false }, os_failure t.eagain g) else other

pub record Session (C : Type 0) : Type 0 where
  pub ctx : C
  pub conn : Conn
  pub eof : Bool

-- What `SSLRead` leaves, with the bytes read; and `SSLWrite`, with their number.
pub record SslRead (C : Type 0) : Type 0 where
  pub status : OsStatus
  pub bytes : Bytes
  pub ctx : C
  pub conn : Conn

pub record SslWrite (C : Type 0) : Type 0 where
  pub status : OsStatus
  pub processed : ℕ
  pub ctx : C
  pub conn : Conn

-- The calls of Secure Transport on a session.
pub record Transport (C : Type 0) : Type 0 where
  pub ssl_read : ℕ → C → Conn → SslRead C
  pub buffered : C → ℕ
  pub ssl_write : Bytes → C → Conn → SslWrite C

-- What `kod_tls_read` and `kod_tls_write` leave.
pub record ReadBack (C : Type 0) : Type 0 where
  pub text : KodStr
  pub session : Session C
  pub globals : Globals

pub record Wrote (C : Type 0) : Type 0 where
  pub value : ℤ
  pub session : Session C
  pub globals : Globals

-- `got`, `chunk` and the session after the second `SSLRead`.
pub record Taken (C : Type 0) : Type 0 where
  pub chunk : Bytes
  pub got : ℕ
  pub session : Session C

-- `(size_t)max - got`
unfoldable pub minus : ℕ → ℕ → ℕ
minus max got = (max + 2 ^ 64 - got) % 2 ^ 64

module _ {C : Type 0} (junk : ℕ → ℕ) where
  unfoldable pub nothing : Session C → Globals → Run (ReadBack C)
  nothing s g = do text ← kod_str_new junk 0; ok (record { text = text; session = s; globals = g })

  -- From `int closed` to the end, where there is no data.
  unfoldable pub read_nothing : Texts → OsStatus → Session C → Globals → Run (ReadBack C)
  read_nothing t closed_graceful s g = nothing (record s { eof = true }) g
  read_nothing t closed_no_notify s g = nothing (record s { eof = true }) g
  read_nothing t closed_abort s g =
      if s.conn.clean_eof
      then nothing (record s { eof = true }) g
      else nothing s (tls_failure_text (codes "connection closed in the middle of a record") g)
  read_nothing t st s g =
      let (c, after) = report_failure t (codes "TLS read failed") st s.conn g in
      nothing (record s { conn = c }) after

  -- The second `SSLRead`, for `ask` bytes behind the first `got`.
  unfoldable pub take_more_of : Transport C → ℕ → ℕ → Bytes → Session C → Run (Taken C)
  take_more_of ssl ask got chunk s =
      let r = ssl.ssl_read ask s.ctx s.conn in
      memcpy chunk got r.bytes 0 (length r.bytes) >>= λ filled. ok (record {
        chunk = filled;
        got = if is_no_err r.status then got + length r.bytes else got;
        session = record s { ctx = r.ctx; conn = r.conn };
      })

  -- The branch where there is data; `first` is what the first `SSLRead` left.
  unfoldable pub read_data : Transport C → ℕ → SslRead C → Session C → Globals → Run (ReadBack C)
  read_data ssl max first s g = do
    chunk ← memcpy (fresh junk 65536) 0 first.bytes 0 (length first.bytes)
    let got = length first.bytes
    let size = ssl.buffered s.ctx
    let room = minus max got
    let ask = if ltb size room then size else room
    taken ←
        if ltb 0 ask
        then take_more_of ssl ask got chunk s
        else ok (record { chunk = chunk; got = got; session = s })
    text ← kod_str_from_bytes junk taken.chunk taken.got
    let after : Session C = taken.session
    ok (record {
      text = text;
      session = record after { eof = is_closed first.status || after.eof };
      globals = g;
    })

  unfoldable pub kod_tls_read : Transport C → Texts → ℤ → Session C → Globals → Run (ReadBack C)
  kod_tls_read ssl t max s g =
      let size = capped max in
      let first = ssl.ssl_read 1 s.ctx s.conn in
      let s₁ = record s { ctx = first.ctx; conn = first.conn } in
      let g₁ = record g { g_status = 0 } in
      let some_read =
        if ltb 0 (length first.bytes + ssl.buffered first.ctx)
        then read_data ssl (pos_part size) first s₁ g₁
        else read_nothing t first.status s₁ g₁ in
      if not (ltb_ℤ (pos 0) size) || s.eof then nothing s g₁ else some_read

-- `data` has the bytes of the string.
unfoldable pub kod_tls_write :
    {C : Type 0} → Transport C → Texts → Bytes → Session C → Globals → Wrote C
kod_tls_write ssl t bytes s g =
    let g₁ = record g { g_status = 0 } in
    let w = ssl.ssl_write bytes s.ctx s.conn in
    let (c, after) = report_failure t (codes "TLS write failed") w.status w.conn g₁ in
    let sent =
      if is_no_err w.status
      then record {
        value = pos w.processed;
        session = record s { ctx = w.ctx; conn = w.conn };
        globals = g₁;
      }
      else record {
        value = negsuc 0;
        session = record s { ctx = w.ctx; conn = c };
        globals = after;
      } in
    if length bytes == 0 then record { value = pos 0; session = s; globals = g₁ } else sent

unfoldable pub kod_tls_message : (ℕ → ℕ) → Globals → Run KodStr
kod_tls_message junk g = kod_str_from_bytes junk (g.g_message ++ 0 ∷ []) (length g.g_message)
