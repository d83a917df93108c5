-- ===== src/Tls/Failing.antt =====
-- What reading and writing report where Secure Transport gives no data or an error.
use kodlang.Base.{
  ℕ, ◌+◌, ◌<◌, min, ◌≡◌, ◌≢◌, ◌⊎◌, inl, inr, refl, ap, sym, ◌∙◌, Bytes, [], ◌++◌, Bool, true, false,
  not, ◌&&◌, none, some, ok, take, length, codes, ltb, lt→ltb, le→ltb, ◌==◌, fresh, if◌then◌else◌,
  arith,
}
use kodlang.Base.Int.{pos, negsuc}
use kodlang.Fd.Calls.{capped_lem}
use kodlang.Str.Repr.{str_of, kod_str_new_lem}
use kodlang.TlsIo.{
  OsStatus, no_err, closed_graceful, closed_no_notify, closed_abort, would_block, sec_io,
  server_auth_completed, other, Conn,
}
use kodlang.Tls.{
  Globals, Texts, Session, Transport, ReadBack, os_failure, tls_failure, tls_failure_text,
  report_failure, is_closed, is_no_err, is_sec_io, nothing, read_nothing, kod_tls_read,
  kod_tls_write,
}

-- The end of the stream, a wait past the socket's timeout, an error of the system, or one of TLS.
pub data Ending : Type 0 where
  end_of_stream : Ending
  waited_too_long : Ending
  system_failed : ℕ → Ending
  tls_failed : Bytes → Ending

-- What an ending leaves of the connection's flags and of the globals.
abbrev pub kept : Ending → Conn → Conn
kept end_of_stream c = c
kept waited_too_long c = record c { timed_out = false }
kept (system_failed err) c = record c { io_errno = 0 }
kept (tls_failed text) c = c

abbrev pub told : ℕ → Ending → Globals → Globals
told eagain end_of_stream g = g
told eagain waited_too_long g = record g { g_status = 1; io_errno = eagain }
told eagain (system_failed err) g = record g { g_status = 1; io_errno = err }
told eagain (tls_failed text) g = record g { g_status = 2; g_message = text }

abbrev pub is_end : Ending → Bool
is_end end_of_stream = true
is_end waited_too_long = false
is_end (system_failed err) = false
is_end (tls_failed text) = false

and_false : (b : Bool) → (b && false) ≡ false
and_false true = refl
and_false false = refl

not-zero : (n : ℕ) → n ≢ 0 → not (n == 0) ≡ true
not-zero n h = ground arith

not_system :
    (st : OsStatus) (n : ℕ)
    → (is_sec_io st ≡ false) ⊎ (n ≡ 0)
    → (is_sec_io st && not (n == 0)) ≡ false
not_system st n (inl h) = rw h refl
not_system st n (inr h) = ap (λ m. is_sec_io st && not (m == 0)) h ∙ and_false (is_sec_io st)

closed-sec_io : (st : OsStatus) → is_closed st ≡ true → is_sec_io st ≡ false
unfolding is_closed is_sec_io
closed-sec_io sec_io h = cc
closed-sec_io closed_graceful h = refl
closed-sec_io closed_no_notify h = refl
closed-sec_io closed_abort h = refl
closed-sec_io no_err h = refl
closed-sec_io would_block h = refl
closed-sec_io server_auth_completed h = refl
closed-sec_io (other n) h = refl

module _ (t : Texts) where
  -- Why a call failed: a timeout comes first, then the errno of the socket, then the framework's
  -- result; `what` describes a result that has no text.
  pub data Fails (what : Bytes) (st : OsStatus) (c : Conn) : Ending → Type 0 where
    late : c.timed_out ≡ true → Fails what st c waited_too_long
    system :
        c.timed_out ≡ false
        → is_sec_io st ≡ true
        → c.io_errno ≢ 0
        → Fails what st c (system_failed c.io_errno)
    shut :
        c.timed_out ≡ false
        → is_closed st ≡ true
        → Fails what st c (tls_failed (codes "connection closed"))
    known :
        {text : Bytes}
        → c.timed_out ≡ false
        → (is_sec_io st ≡ false) ⊎ (c.io_errno ≡ 0)
        → is_closed st ≡ false
        → t.error_text st ≡ some text
        → Fails what st c (tls_failed text)
    numbered :
        c.timed_out ≡ false
        → (is_sec_io st ≡ false) ⊎ (c.io_errno ≡ 0)
        → is_closed st ≡ false
        → t.error_text st ≡ none
        → Fails what st c
            (tls_failed (take 511 (what ++ (codes " (OSStatus " ++ (t.number st ++ codes ")")))))

  -- Why a read gives no data. A close between two records ends the stream; one in the middle of a
  -- record does not.
  pub data NoData : OsStatus → Conn → Ending → Type 0 where
    graceful : {c : Conn} → NoData closed_graceful c end_of_stream
    no_notify : {c : Conn} → NoData closed_no_notify c end_of_stream
    between : {c : Conn} → c.clean_eof ≡ true → NoData closed_abort c end_of_stream
    inside :
        {c : Conn}
        → c.clean_eof ≡ false
        → NoData closed_abort c (tls_failed (codes "connection closed in the middle of a record"))
    failing :
        {st : OsStatus} {c : Conn} {e : Ending}
        → is_closed st ≡ false
        → Fails (codes "TLS read failed") st c e
        → NoData st c e

  pub tls_failure-some :
      (what : Bytes) {text : Bytes} {st : OsStatus} (g : Globals)
      → t.error_text st ≡ some text
      → tls_failure t what st g ≡ record g { g_status = 2; g_message = text }
  unfolding tls_failure
  tls_failure-some what g x = rw (tls_failure, x) refl

  pub tls_failure-none :
      (what : Bytes) {st : OsStatus} (g : Globals)
      → t.error_text st ≡ none
      → tls_failure t what st g ≡ record g {
        g_status = 2;
        g_message = take 511 (what ++ (codes " (OSStatus " ++ (t.number st ++ codes ")")));
      }
  unfolding tls_failure
  tls_failure-none what g x = rw (tls_failure, x) refl

  pub report_failure_lem :
      {what : Bytes} {st : OsStatus} {c : Conn} {e : Ending} (g : Globals)
      → Fails what st c e
      → report_failure t what st c g ≡ (kept e c, told t.eagain e g)
  unfolding report_failure os_failure tls_failure_text
  report_failure_lem g (late h) = rw h refl
  report_failure_lem {st = st} {c} g (system h k n) = rw (h, k, not-zero c.io_errno n) refl
  report_failure_lem {st = st} {c} g (shut h k) = rw (h, closed-sec_io st k, k) refl
  report_failure_lem {what = what} {st} {c} g (known h k n x) =
      rw (h, not_system st c.io_errno k, n, tls_failure-some what g x) refl
  report_failure_lem {what = what} {st} {c} g (numbered h k n x) =
      rw (h, not_system st c.io_errno k, n, tls_failure-none what g x) refl

  Fails-is_end :
      {what : Bytes} {st : OsStatus} {c : Conn} {e : Ending} → Fails what st c e → is_end e ≡ false
  Fails-is_end (late h) = refl
  Fails-is_end (system h k n) = refl
  Fails-is_end (shut h k) = refl
  Fails-is_end (known h k n x) = refl
  Fails-is_end (numbered h k n x) = refl

  module _ {C : Type 0} (junk : ℕ → ℕ) where
    nothing_lem :
        (s : Session C) (g : Globals)
        → nothing junk s g ≡ ok (record { text = str_of []; session = s; globals = g })
    unfolding nothing
    nothing_lem s g = rw (kod_str_new_lem junk 0 (omega arith)) (unfold fresh in refl)

    read_nothing-failing :
        (st : OsStatus) (s : Session C) (g : Globals)
        → is_closed st ≡ false
        → read_nothing junk t st s g ≡ (
            let (c, after) = report_failure t (codes "TLS read failed") st s.conn g in
            nothing junk (record s { conn = c }) after)
    unfolding read_nothing is_closed
    read_nothing-failing closed_graceful s g h = cc
    read_nothing-failing closed_no_notify s g h = cc
    read_nothing-failing closed_abort s g h = cc
    read_nothing-failing sec_io s g h = refl
    read_nothing-failing no_err s g h = refl
    read_nothing-failing would_block s g h = refl
    read_nothing-failing server_auth_completed s g h = refl
    read_nothing-failing (other n) s g h = refl

    -- What a read without data leaves of a session that has not ended.
    abbrev left_by : Ending → C → Conn → Globals → ReadBack C
    left_by e ctx conn g = record {
      text = str_of [];
      session = record { ctx = ctx; conn = kept e conn; eof = is_end e };
      globals = told t.eagain e g;
    }

    read_nothing_lem :
        {st : OsStatus} {e : Ending} (ctx : C) (conn : Conn) (g : Globals)
        → NoData st conn e
        → read_nothing junk t st (record { ctx = ctx; conn = conn; eof = false }) g
          ≡ ok (left_by e ctx conn g)
    unfolding read_nothing tls_failure_text
    read_nothing_lem ctx conn g graceful =
        nothing_lem (record { ctx = ctx; conn = conn; eof = true }) g
    read_nothing_lem ctx conn g no_notify =
        nothing_lem (record { ctx = ctx; conn = conn; eof = true }) g
    read_nothing_lem ctx conn g (between h) =
        let s : Session C = record { ctx = ctx; conn = conn; eof = false } in
        let cut = tls_failure_text (codes "connection closed in the middle of a record") g in
        ap (λ b. if b then nothing junk (record s { eof = true }) g else nothing junk s cut) h
        ∙ nothing_lem (record s { eof = true }) g
    read_nothing_lem ctx conn g (inside h) =
        let s : Session C = record { ctx = ctx; conn = conn; eof = false } in
        let cut = tls_failure_text (codes "connection closed in the middle of a record") g in
        ap (λ b. if b then nothing junk (record s { eof = true }) g else nothing junk s cut) h
        ∙ nothing_lem s cut
    read_nothing_lem {st} {e} ctx conn g (failing n d) =
        let s : Session C = record { ctx = ctx; conn = conn; eof = false } in
        read_nothing-failing st s g n
        ∙ ap (λ r. nothing junk (record s { conn = r.0 }) r.1) (report_failure_lem g d)
        ∙ nothing_lem (record s { conn = kept e conn }) (told t.eagain e g)
        ∙ ap
            (λ b. ok (record {
              text = str_of [];
              session = record { ctx = ctx; conn = kept e conn; eof = b };
              globals = told t.eagain e g;
            }))
            (sym (Fails-is_end d))

    module _ (ssl : Transport C) where
      -- On a session that has not ended, with a positive max and no data available, kod_tls_read
      -- returns the empty string. After a close between records (with or without a notice) the
      -- status is 0 and the stream has ended; it has not ended after anything else, and the status
      -- is then 1 with EAGAIN for a timeout or with the socket's errno, which are then cleared, or
      -- 2 with a text for a close inside a record or another failure.
      pub kod_tls_read_none :
          {e : Ending} (max : ℕ) (s : Session C) (g : Globals)
          → 0 < max
          → s.eof ≡ false
          → let first = ssl.ssl_read 1 s.ctx s.conn in
            length first.bytes + ssl.buffered first.ctx ≡ 0
            → NoData first.status first.conn e
            → kod_tls_read junk ssl t (pos max) s g
              ≡ ok (record {
                text = str_of [];
                session = record { ctx = first.ctx; conn = kept e first.conn; eof = is_end e };
                globals = told t.eagain e (record g { g_status = 0 });
              })
      unfolding kod_tls_read
      kod_tls_read_none max s g some_asked going none_there d =
          let first = ssl.ssl_read 1 s.ctx s.conn in
          let empty : ltb 0 (length first.bytes + ssl.buffered first.ctx) ≡ false =
            le→ltb 0 (length first.bytes + ssl.buffered first.ctx) (omega arith) in
          rw (capped_lem max, lt→ltb (0 + 0) (min 65536 max + 0) (omega arith), empty, going)
            (read_nothing_lem first.ctx first.conn (record g { g_status = 0 }) d)

  module _ {C : Type 0} (ssl : Transport C) where
    -- Where SSLWrite fails on data that is not empty, kod_tls_write returns -1, with status 1 and
    -- EAGAIN for a timeout, else status 1 and the socket's errno for an I/O failure, else status 2
    -- and a text; a timeout or an errno that is reported is cleared.
    pub kod_tls_write_broken :
        {e : Ending} (bytes : Bytes) (s : Session C) (g : Globals)
        → 0 < length bytes
        → let w = ssl.ssl_write bytes s.ctx s.conn in
          is_no_err w.status ≡ false
          → Fails (codes "TLS write failed") w.status w.conn e
          → kod_tls_write ssl t bytes s g ≡ record {
            value = negsuc 0;
            session = record s { ctx = w.ctx; conn = kept e w.conn };
            globals = told t.eagain e (record g { g_status = 0 });
          }
    unfolding kod_tls_write
    kod_tls_write_broken {e} bytes s g some_data bad d =
        let none_empty : (length bytes == 0) ≡ false = ground arith in
        rw (none_empty, bad, report_failure_lem (record g { g_status = 0 }) d) refl
