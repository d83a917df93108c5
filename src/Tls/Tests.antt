-- ===== src/Tls/Tests.antt =====
-- A transport that has decrypted a text in advance, and the theorems at it.
use kodlang.Base.{
  ℕ, ◌<◌, ◌≤◌, ◌≡◌, refl, Bytes, [], ◌∷◌, none, false, ok, take, drop, length, codes, arith,
}
use kodlang.Base.Int.{pos}
use kodlang.Str.Repr.{str_of}
use kodlang.TlsIo.{no_err, closed_graceful, sec_io, Conn}
use kodlang.Tls.{Globals, Texts, Session, SslRead, SslWrite, Transport, kod_tls_read}
use kodlang.Tls.Failing.{end_of_stream, kept, told, is_end, graceful, kod_tls_read_none}
use kodlang.Tls.Reading.{Buffering, reports_close, kod_tls_read_lem}

abbrev calm : Conn
calm = record { io_errno = 0; timed_out = false; clean_eof = false }

abbrev quiet : Globals
quiet = record { g_status = 7; g_message = []; io_errno = 0 }

abbrev texts : Texts
texts = record { error_text = λ st. none; number = λ st. []; eagain = 35 }

abbrev zeros : ℕ → ℕ
zeros i = 0

abbrev reads_ready : ℕ → Bytes → Conn → SslRead Bytes
reads_ready n [] conn = record { status = closed_graceful; bytes = []; ctx = []; conn = conn }
reads_ready n (b ∷ bs) conn = record {
  status = no_err;
  bytes = take n (b ∷ bs);
  ctx = drop n (b ∷ bs);
  conn = conn;
}

-- Writing always fails with EPIPE.
abbrev breaks : Bytes → Bytes → Conn → SslWrite Bytes
breaks bytes c conn = record {
  status = sec_io;
  processed = 0;
  ctx = c;
  conn = record conn { io_errno = 32 };
}

abbrev ready : Transport Bytes
ready = record { ssl_read = reads_ready; buffered = length; ssl_write = breaks }

ready-one : (c : Bytes) (conn : Conn) → length (reads_ready 1 c conn).bytes ≤ 1
ready-one [] conn = omega arith
ready-one (b ∷ bs) conn = omega arith

ready-taken :
    (n : ℕ) (c : Bytes) (conn : Conn)
    → 0 < n
    → n ≤ length c
    → (left : Bytes) × (reads_ready n c conn
        ≡ record { status = no_err; bytes = take n c; ctx = left; conn = conn })
      × (left ≡ drop n c)
ready-taken n [] conn some_asked h = absurd (omega arith)
ready-taken n (b ∷ bs) conn some_asked h = (_, refl, refl)

ready-Buffering : Buffering ready (λ c. c)
ready-Buffering = record { size = λ c. refl; one = ready-one; taken = ready-taken }

abbrev session : Bytes → Session Bytes
session c = record { ctx = c; conn = calm; eof = false }

kod_tls_read_lem_example :
    (left : Bytes) × (kod_tls_read zeros ready texts (pos 3) (session (codes "hello")) quiet
      ≡ ok (record {
        text = str_of (codes "hel");
        session = record { ctx = left; conn = calm; eof = reports_close no_err };
        globals = record quiet { g_status = 0 };
      }))
    × (left ≡ codes "lo")
kod_tls_read_lem_example =
    kod_tls_read_lem ready-Buffering zeros texts 3 (session (codes "hello")) quiet (omega arith)
      refl (omega arith) (λ e. cc)

kod_tls_read_none_example :
    kod_tls_read zeros ready texts (pos 3) (session []) quiet
    ≡ ok (record {
      text = str_of [];
      session = record { ctx = []; conn = kept end_of_stream calm; eof = is_end end_of_stream };
      globals = told 35 end_of_stream (record quiet { g_status = 0 });
    })
kod_tls_read_none_example =
    kod_tls_read_none texts zeros ready 3 (session []) quiet (omega arith) refl refl graceful
