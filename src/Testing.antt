-- ===== src/Testing.antt =====
-- The test framework of stdlib/runtime.c: the globals `g_kod_test_*`, the calls that the generated
-- dispatcher and `testing.fail` make, and the two output streams, which end up in one place.
pub mod Counts
mod Tests
pub mod Transcript
use kodlang.Base.{
  ℕ, ◌+◌, ◌-◌, ◌^◌, Bytes, List, [], ◌∷◌, ◌++◌, Bool, true, false, Run, ok, undefined, ◌>>=◌, codes,
  take, drop, ltb, if◌then◌else◌,
}
use kodlang.Base.Int.{ℤ, pos, negsuc, ltb_ℤ, ◌-ℤ◌}

-- Where stdout and stderr both arrive, and what stdout still holds in its buffer.
pub record Console : Type 0 where
  pub place : Bytes
  pub buffered : Bytes

unfoldable pub write_out : Bytes → Console → Console
write_out xs c = record c { buffered = c.buffered ++ xs }

-- Stderr has no buffer.
unfoldable pub write_err : Bytes → Console → Console
write_err xs c = record c { place = c.place ++ xs }

unfoldable pub fflush : Console → Console
fflush c = record { place = c.place ++ c.buffered; buffered = [] }

-- The C library may write out a part of the buffer at any time.
unfoldable pub spill : ℕ → Console → Console
spill n c = record { place = c.place ++ take n c.buffered; buffered = drop n c.buffered }

pub record TestState : Type 0 where
  pub failed : Bool
  pub total : ℕ
  pub failures : ℕ
  pub start_ns : ℤ
  pub case_start_ns : ℤ
  pub group_seen : Bool
  pub console : Console

abbrev pub start : TestState
start = record {
  failed = false;
  total = 0;
  failures = 0;
  start_ns = negsuc 0;
  case_start_ns = negsuc 0;
  group_seen = false;
  console = record { place = []; buffered = [] };
}

abbrev pub newline : Bytes
newline = 10 ∷ []

-- `n++` on an `int` that is not negative.
unfoldable pub increment : ℕ → Run ℕ
increment n = if ltb (n + 1) (2 ^ 31) then ok (n + 1) else undefined

-- `now` is what `kod_monotonic_ns` reads.
unfoldable pub kod_test_reset : ℕ → TestState → TestState
kod_test_reset now s =
    let begun = if ltb_ℤ s.start_ns (pos 0) then record s { start_ns = pos now } else s in
    record begun { case_start_ns = pos now; failed = false }

unfoldable pub kod_test_fail : Bytes → TestState → TestState
kod_test_fail msg s =
    let flushed = fflush s.console in
    let indented = write_err (codes "      ") flushed in
    let shown = write_err msg indented in
    record s { failed = true; console = write_err newline shown }

unfoldable pub kod_test_module_begin : Bytes → TestState → TestState
kod_test_module_begin path s =
    let separated = if s.group_seen then write_out newline s.console else s.console in
    let named = write_out path separated in
    record s { group_seen = true; console = fflush (write_out newline named) }

unfoldable pub kod_puts : Bytes → TestState → TestState
kod_puts text s = record s { console = write_out newline (write_out text s.console) }

-- The calls that a test binary makes before the summary; `puts` is what a test prints itself, and
-- `spills` is the C library's.
pub data Call : Type 0 where
  resets : ℕ → Call
  fails : Bytes → Call
  module_begins : Bytes → Call
  reports : ℕ → Bytes → Call
  puts : Bytes → Call
  spills : ℕ → Call

-- How the C library prints an `int`, and how `format_duration` prints a number of nanoseconds.
module _ (decimal : ℕ → Bytes) (format_duration : ℤ → Bytes) where
  -- What `kod_test_report` prints.
  unfoldable pub report_line : ℕ → Bytes → TestState → Console
  report_line now name s =
      let tagged = write_out (if s.failed then codes "  FAIL " else codes "  ok   ") s.console in
      let named = write_out name tagged in
      let dur = format_duration (pos now -ℤ s.case_start_ns) in
      fflush (write_out (codes " (" ++ (dur ++ (codes ")" ++ newline))) named)

  unfoldable pub kod_test_report : ℕ → Bytes → TestState → Run TestState
  kod_test_report now name s = do
    total ← increment s.total
    failures ← if s.failed then increment s.failures else ok s.failures
    ok (record s { total = total; failures = failures; console = report_line now name s })

  -- The exit code, and the state behind.
  unfoldable pub kod_test_summary : ℕ → TestState → ℕ × TestState
  kod_test_summary now s =
      let elapsed_ns = if ltb_ℤ s.start_ns (pos 0) then pos 0 else pos now -ℤ s.start_ns in
      let counts = decimal (s.total - s.failures) ++ (codes "/" ++ decimal s.total) in
      let text =
        newline ++ (counts ++ (codes " passed in " ++ (format_duration elapsed_ns ++ newline))) in
      (if ltb 0 s.failures then 1 else 0, record s { console = write_out text s.console })

  unfoldable pub call : TestState → Call → Run TestState
  call s (resets now) = ok (kod_test_reset now s)
  call s (fails msg) = ok (kod_test_fail msg s)
  call s (module_begins path) = ok (kod_test_module_begin path s)
  call s (reports now name) = kod_test_report now name s
  call s (puts text) = ok (kod_puts text s)
  call s (spills n) = ok (record s { console = spill n s.console })

  -- The state after some calls, the latest call first in the list.
  unfoldable pub after : List Call → Run TestState
  after [] = ok start
  after (c ∷ earlier) = do s ← after earlier; call s c
