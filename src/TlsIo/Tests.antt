-- ===== src/TlsIo/Tests.antt =====
-- The callbacks with a few answers of the system, and the theorems at them.
use kodlang.Base.{
  ◌≡◌, refl, Bytes, [], ◌∷◌, ◌++◌, true, false, ok, take, drop, length, codes, arith,
}
use kodlang.Fd.{returned, failed}
use kodlang.TlsIo.{Conn, closed_graceful, read_loop, read_cb, write_cb}
use kodlang.TlsIo.Outcome.{ended, blocked, noted, status_of}
use kodlang.TlsIo.Reading.{piece, interrupted, at_end, read_cb_lem}
use kodlang.TlsIo.Writing.{Writes, waits, write_cb_lem}

abbrev new_conn : Conn
new_conn = record { io_errno = 0; timed_out = false; clean_eof = false }

abbrev room : Bytes
room = codes "......"

-- EINTR is 4 and EAGAIN is 35.
between_records :
    read_cb 4 35 (returned [] ∷ []) room new_conn
    ≡ ok (record {
      status = closed_graceful;
      len = 0;
      bytes = room;
      conn = record new_conn { clean_eof = true };
    })
unfolding read_cb read_loop
between_records = refl

read_cb_lem_example :
    read_cb 4 35 (failed 4 ∷ returned (codes "abc") ∷ returned [] ∷ []) room new_conn
    ≡ ok (record {
      status = status_of ended;
      len = length (codes "abc");
      bytes = codes "abc" ++ drop (length (codes "abc")) room;
      conn = noted (length (codes "abc")) ended new_conn;
    })
read_cb_lem_example =
    read_cb_lem 4 35 (omega arith) room new_conn
      (interrupted (omega arith) refl (piece {more = 3} refl refl (at_end (omega arith))))

write_cb_lem_example :
    write_cb 4 35 32 (returned 2 ∷ failed 35 ∷ []) room new_conn
    ≡ ok (record {
      status = status_of blocked;
      len = 2;
      bytes = take 2 room;
      conn = noted 2 blocked new_conn;
    })
write_cb_lem_example =
    write_cb_lem 4 35 32 (omega arith) room new_conn
      (Writes.piece {more = 4} refl refl (waits (omega arith) refl))
