-- ===== src/Duration/Tests.antt =====
-- A duration of 45678 ns, and the resolution of a clock that does not tell.
use kodlang.Base.{
  ℕ, ◌≡◌, refl, Bytes, ◌++◌, none, some, ok, codes, ◌==◌, if◌then◌else◌, add_int64, mul_int64,
}
use kodlang.Base.Int.{ℤ, pos}
use kodlang.Clock.{ns_of}
use kodlang.Duration.{monotonic_res_ns, scale_of, decimals_of, microseconds, format_duration}

-- One text is enough here.
abbrev fixed : ℕ → ℤ → ℕ → Bytes
fixed places n unit = if places == 1 then codes "45.7" else codes "0.04"

in_microseconds : format_duration fixed 31 42 (pos 45678) ≡ codes "45.7 " ++ microseconds
unfolding format_duration scale_of decimals_of
in_microseconds = refl

same_tick : format_duration fixed 31 42 (pos 0) ≡ codes "<0.04 " ++ microseconds
unfolding format_duration
same_tick = refl

at_least_one : monotonic_res_ns none 0 ≡ ok 1
unfolding monotonic_res_ns
at_least_one = refl

reads : monotonic_res_ns (some (record { tv_sec = 0; tv_nsec = 42 })) 0 ≡ ok 42
unfolding monotonic_res_ns ns_of add_int64 mul_int64
reads = refl
