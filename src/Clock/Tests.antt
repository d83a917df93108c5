-- ===== src/Clock/Tests.antt =====
-- A sleep that is interrupted twice, and the theorem at it.
use kodlang.Base.{◌≡◌, refl, List, [], ◌∷◌, ok, add_int64, mul_int64, arith}
use kodlang.Base.Int.{pos}
use kodlang.Clock.{Timespec, ns_of, kod_sleep_ns}
use kodlang.Clock.Sleep.{slept, kod_sleep_ns_lem}

abbrev twice : List Timespec
twice = record { tv_sec = 1; tv_nsec = 5 } ∷ record { tv_sec = 0; tv_nsec = 7 } ∷ []

reading : ns_of (record { tv_sec = 1; tv_nsec = 5 }) ≡ ok 1000000005
unfolding ns_of add_int64 mul_int64
reading = refl

kod_sleep_ns_lem_example : slept (kod_sleep_ns (pos 2500000000) twice) twice ≡ 2500000000
kod_sleep_ns_lem_example = kod_sleep_ns_lem (pos 2500000000) twice (omega arith, (omega arith, tt))
