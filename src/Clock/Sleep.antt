-- ===== src/Clock/Sleep.antt =====
-- How long a sleep takes, with its interruptions.
use kodlang.Base.{
  ℕ, zero, suc, ◌+◌, ◌-◌, ◌*◌, ◌/◌, ◌%◌, ◌≤◌, ◌≡◌, subst, sym, refl, ◌∙◌, List, [], ◌∷◌, arith,
}
use kodlang.Base.Int.{ℤ, pos, negsuc, pos_part}
use kodlang.Clock.{Timespec, sleep_loop, kod_sleep_ns}

abbrev pub duration : Timespec → ℕ
duration ts = ts.tv_sec * 1000000000 + ts.tv_nsec

-- The time left at an interruption is no more than the call was to sleep.
abbrev pub Shrinks : ℕ → List Timespec → Type 0
Shrinks n [] = Unit
Shrinks n (left ∷ interrupts) = (duration left ≤ n) × Shrinks (duration left) interrupts

-- The time spent in the calls: an interrupted one sleeps for what was asked less what was left.
abbrev pub slept : List Timespec → List Timespec → ℕ
slept [] interrupts = 0
slept (asked ∷ calls) [] = duration asked + slept calls []
slept (asked ∷ calls) (left ∷ interrupts) =
    (duration asked - duration left) + slept calls interrupts

sleep_loop_lem :
    (ts : Timespec) (interrupts : List Timespec)
    → Shrinks (duration ts) interrupts
    → slept (sleep_loop ts interrupts) interrupts ≡ duration ts
unfolding sleep_loop
sleep_loop_lem ts [] h = omega arith
sleep_loop_lem ts (left ∷ interrupts) h = omega (arith, h.0, sleep_loop_lem left interrupts h.1)

-- However often it is interrupted, kod_sleep_ns sleeps for exactly the number of nanoseconds asked
-- for in all, and not at all if that is zero or less, where no interruption leaves more time than
-- the call was to sleep.
pub kod_sleep_ns_lem :
    (ns : ℤ) (interrupts : List Timespec)
    → Shrinks (pos_part ns) interrupts
    → slept (kod_sleep_ns ns interrupts) interrupts ≡ pos_part ns
unfolding kod_sleep_ns
kod_sleep_ns_lem (pos zero) interrupts h = refl
kod_sleep_ns_lem (negsuc n) interrupts h = refl
kod_sleep_ns_lem (pos (suc n)) interrupts h =
    let ts : Timespec = record { tv_sec = suc n / 1000000000; tv_nsec = suc n % 1000000000 } in
    let whole : duration ts ≡ suc n = omega arith in
    sleep_loop_lem ts interrupts (subst (λ m. Shrinks m interrupts) (sym whole) h) ∙ whole
