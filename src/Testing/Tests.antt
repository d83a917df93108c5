-- ===== src/Testing/Tests.antt =====
-- The test framework on a small run, and the theorems at it.
use kodlang.Base.{ℕ, ◌+◌, ◌≡◌, ◌↔◌, refl, Bytes, List, [], ◌∷◌, ◌++◌, Run, ok, codes, arith}
use kodlang.Base.Int.{ℤ}
use kodlang.Testing.{
  TestState, write_out, write_err, fflush, spill, kod_test_reset, kod_test_fail,
  kod_test_module_begin, kod_puts, report_line, kod_test_report, kod_test_summary, increment, Call,
  resets, fails, module_begins, reports, puts, spills, call, after,
}
use kodlang.Testing.Counts.{kod_test_summary_lem, reported, reported_failed}
use kodlang.Testing.Transcript.{after-transcript, transcript}

abbrev digits : ℕ → Bytes
digits n = (48 + n) ∷ []

abbrev one_ns : ℤ → Bytes
one_ns t = codes "1 ns"

-- One test passes and one prints, fails twice and is reported; the latest call comes first.
abbrev run : List Call
run =
    reports 9 (codes "b")
    ∷ fails (codes "y")
    ∷ spills 2
    ∷ puts (codes "out")
    ∷ fails (codes "x")
    ∷ resets 8
    ∷ reports 7 (codes "a")
    ∷ resets 5
    ∷ module_begins (codes "m.kod")
    ∷ []

counted : (reported run ≡ 2) × (reported_failed run ≡ 1)
counted = (refl, refl)

abbrev code_of : Run TestState → ℕ
code_of (ok s) = (kod_test_summary digits one_ns 10 s).0
code_of _ = 2

exit_code : code_of (after digits one_ns run) ≡ 1
unfolding after call kod_test_summary kod_test_report report_line increment kod_test_reset
    kod_test_fail kod_test_module_begin kod_puts spill fflush write_out write_err
exit_code = refl

kod_test_summary_lem_example :
    (s : TestState) × (after digits one_ns run ≡ ok s)
    × (s.total ≡ reported run)
    × (s.failures ≡ reported_failed run)
    × (((kod_test_summary digits one_ns 10 s).0 ≡ 0) ↔ (reported_failed run ≡ 0))
kod_test_summary_lem_example = kod_test_summary_lem digits one_ns run 10 (omega arith)

after-transcript_example :
    (s : TestState) × (after digits one_ns run ≡ ok s)
    × (s.console.place ++ s.console.buffered ≡ transcript one_ns run)
after-transcript_example = after-transcript digits one_ns run (omega arith)
