-- ===== src/Clock.antt =====
-- The clock readings and `kod_sleep_ns` of stdlib/runtime.c, for times that are not negative.
pub mod Sleep
mod Tests
use kodlang.Base.{ℕ, zero, suc, ◌/◌, ◌%◌, List, [], ◌∷◌, Run, ok, ◌>>=◌, add_int64, mul_int64}
use kodlang.Base.Int.{ℤ, pos, negsuc}

-- `struct timespec`
pub record Timespec : Type 0 where
  pub tv_sec : ℕ
  pub tv_nsec : ℕ

-- The return value of `kod_monotonic_ns` and `kod_unix_ns`, from what the system's clock reads.
unfoldable pub ns_of : Timespec → Run ℕ
ns_of ts = do whole ← mul_int64 ts.tv_sec 1000000000; add_int64 whole ts.tv_nsec

-- The calls of `nanosleep`, with the times asked for, where `interrupts` are the times that were
-- left at each interruption; the call after the last one of them ends the loop.
unfoldable pub sleep_loop : Timespec → List Timespec → List Timespec
sleep_loop ts [] = ts ∷ []
sleep_loop ts (left ∷ interrupts) = ts ∷ sleep_loop left interrupts

unfoldable pub kod_sleep_ns : ℤ → List Timespec → List Timespec
kod_sleep_ns (pos zero) interrupts = []
kod_sleep_ns (pos (suc n)) interrupts =
    sleep_loop (record { tv_sec = suc n / 1000000000; tv_nsec = suc n % 1000000000 }) interrupts
kod_sleep_ns (negsuc n) interrupts = []
