-- ===== src/TlsIo/Outcome.antt =====
-- How a callback ends.
use kodlang.Base.{ℕ, true, ◌==◌, if◌then◌else◌}
use kodlang.TlsIo.{OsStatus, no_err, closed_graceful, would_block, sec_io, Conn}

-- All bytes went through, the stream ended, the call would have waited, or it failed with an errno.
pub data Stop : Type 0 where
  filled : Stop
  ended : Stop
  blocked : Stop
  broken : ℕ → Stop

abbrev pub status_of : Stop → OsStatus
status_of filled = no_err
status_of ended = closed_graceful
status_of blocked = would_block
status_of (broken err) = sec_io

-- What is noted of the end after `done` bytes; an end between two records is one with no bytes.
abbrev pub noted : ℕ → Stop → Conn → Conn
noted done filled c = c
noted done ended c = if done == 0 then record c { clean_eof = true } else c
noted done blocked c = record c { timed_out = true }
noted done (broken err) c = record c { io_errno = err }
