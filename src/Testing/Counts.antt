-- ===== src/Testing/Counts.antt =====
-- What a run of the test framework counts, and the exit code it comes to.
use kodlang.Base.{
  ℕ, ◌+◌, ◌^◌, ◌<◌, ◌≤◌, ◌∙◌, ◌≡◌, ◌↔◌, refl, sym, Bytes, List, [], ◌∷◌, Bool, true, false, ok,
  if◌then◌else◌, length, arith,
}
use kodlang.Base.Int.{ℤ}
use kodlang.Testing.{
  TestState, increment, kod_test_reset, kod_test_fail, kod_test_module_begin, kod_puts, start,
  kod_test_report, report_line, kod_test_summary, Call, resets, fails, module_begins, reports, puts,
  spills, call, after,
}

increment_lem : (n : ℕ) → n + 1 < 2 ^ 31 → increment n ≡ ok (n + 1)
unfolding increment
increment_lem n h = ground arith

-- The latest call comes first. Whether a test failed since the last reset:
abbrev pub failing : List Call → Bool
failing [] = false
failing (resets now ∷ earlier) = false
failing (fails msg ∷ earlier) = true
failing (_ ∷ earlier) = failing earlier

-- The tests reported, and those of them that had failed.
abbrev pub reported : List Call → ℕ
reported [] = 0
reported (reports now name ∷ earlier) = reported earlier + 1
reported (_ ∷ earlier) = reported earlier

abbrev pub reported_failed : List Call → ℕ
reported_failed [] = 0
reported_failed (reports now name ∷ earlier) =
    if failing earlier then reported_failed earlier + 1 else reported_failed earlier
reported_failed (_ ∷ earlier) = reported_failed earlier

pub record Counts (cs : List Call) (s : TestState) : Type 0 where
  pub failed : s.failed ≡ failing cs
  pub total : s.total ≡ reported cs
  pub failures : s.failures ≡ reported_failed cs
  pub bounded : reported_failed cs ≤ reported cs
  pub few : reported cs ≤ length cs

reset_lem :
    (now : ℕ) (s : TestState)
    → ((kod_test_reset now s).total ≡ s.total) × ((kod_test_reset now s).failures ≡ s.failures)
unfolding kod_test_reset
reset_lem now s = ground arith

-- A call that is no reset, failure or report leaves the counts.
silent :
    {s s' : TestState} (cs cs' : List Call)
    → Counts cs s
    → s'.failed ≡ s.failed
    → s'.total ≡ s.total
    → s'.failures ≡ s.failures
    → failing cs' ≡ failing cs
    → reported cs' ≡ reported cs
    → reported_failed cs' ≡ reported_failed cs
    → length cs ≤ length cs'
    → Counts cs' s'
silent cs cs' v f t n e r q l = record {
  failed = f ∙ v.failed ∙ sym e;
  total = t ∙ v.total ∙ sym r;
  failures = n ∙ v.failures ∙ sym q;
  bounded = omega (arith, v.bounded);
  few = omega (arith, v.few);
}

pub after_start : Counts [] start
after_start = record {
  failed = refl;
  total = refl;
  failures = refl;
  bounded = omega arith;
  few = omega arith;
}

module _ (decimal : ℕ → Bytes) (format_duration : ℤ → Bytes) where
  -- The state that a report leaves.
  abbrev pub reported_state : ℕ → Bytes → List Call → TestState → TestState
  reported_state now name cs s = record s {
    total = s.total + 1;
    failures = reported_failed (reports now name ∷ cs);
    console = report_line decimal format_duration now name s;
  }

  pub kod_test_report_lem :
      (now : ℕ) (name : Bytes) (cs : List Call) (s : TestState)
      → Counts cs s
      → length cs + 1 < 2 ^ 31
      → kod_test_report decimal format_duration now name s ≡ ok (reported_state now name cs s)
  unfolding kod_test_report
  kod_test_report_lem now name cs s v h =
      let e : increment s.total ≡ ok (s.total + 1) =
        increment_lem s.total (omega (arith, v.total, v.few)) in
      let f : (if s.failed then increment s.failures else ok s.failures)
          ≡ ok (reported_failed (reports now name ∷ cs)) =
        ground (arith, v.failed, v.failures, v.bounded, v.few, increment_lem s.failures) in
      rw (e, f)

  reported_state-Counts :
      (now : ℕ) (name : Bytes) (cs : List Call) (s : TestState)
      → Counts cs s
      → Counts (reports now name ∷ cs) (reported_state now name cs s)
  reported_state-Counts now name cs s v = record {
    failed = v.failed;
    total = omega (arith, v.total);
    failures = refl;
    bounded = ground (arith, v.bounded);
    few = omega (arith, v.few);
  }

  pub call_lem :
      (c : Call) (cs : List Call) (s : TestState)
      → Counts cs s
      → length cs + 1 < 2 ^ 31
      → (s' : TestState) × (call decimal format_duration s c ≡ ok s') × Counts (c ∷ cs) s'
  unfolding call kod_test_fail kod_test_module_begin kod_puts
  call_lem (resets now) cs s v h =
      let (t, f) = reset_lem now s in
      (
        _,
        refl,
        record {
          failed = unfold kod_test_reset in refl;
          total = t ∙ v.total;
          failures = f ∙ v.failures;
          bounded = v.bounded;
          few = omega (arith, v.few);
        },
      )
  call_lem (fails msg) cs s v h = (
    _,
    refl,
    record {
      failed = refl;
      total = v.total;
      failures = v.failures;
      bounded = v.bounded;
      few = omega (arith, v.few);
    },
  )
  call_lem (module_begins path) cs s v h =
      (_, refl, silent cs (module_begins path ∷ cs) v refl refl refl refl refl refl (omega arith))
  call_lem (reports now name) cs s v h = (
    reported_state now name cs s,
    kod_test_report_lem now name cs s v h,
    reported_state-Counts now name cs s v,
  )
  call_lem (puts text) cs s v h =
      (_, refl, silent cs (puts text ∷ cs) v refl refl refl refl refl refl (omega arith))
  call_lem (spills n) cs s v h =
      (_, refl, silent cs (spills n ∷ cs) v refl refl refl refl refl refl (omega arith))

  pub after_lem :
      (cs : List Call)
      → length cs < 2 ^ 31
      → (s : TestState) × (after decimal format_duration cs ≡ ok s) × Counts cs s
  unfolding after
  after_lem [] h = (
    _,
    refl,
    record {
      failed = refl;
      total = refl;
      failures = refl;
      bounded = omega arith;
      few = omega arith;
    },
  )
  after_lem (c ∷ cs) h =
      let (s, e, v) = after_lem cs (omega arith) in
      let (s', f, w) = call_lem c cs s v (omega arith) in (s', rw e f, w)

  -- Any fewer than 2 ^ 31 calls run to a state with as many tests as were reported, and as many
  -- failures as reports of a test that failed after the last reset; the summary then returns 0
  -- exactly when there was no such report.
  pub kod_test_summary_lem :
      (cs : List Call) (now : ℕ)
      → length cs < 2 ^ 31
      → (s : TestState) × (after decimal format_duration cs ≡ ok s)
        × (s.total ≡ reported cs)
        × (s.failures ≡ reported_failed cs)
        × (((kod_test_summary decimal format_duration now s).0 ≡ 0) ↔ (reported_failed cs ≡ 0))
  unfolding kod_test_summary
  kod_test_summary_lem cs now h =
      let (s, e, v) = after_lem cs h in
      (
        s,
        e,
        v.total,
        v.failures,
        ((λ z. ground (arith, z, v.failures)), λ z. ground (arith, z, v.failures)),
      )
