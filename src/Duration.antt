-- ===== src/Duration.antt =====
-- `format_duration` and `monotonic_res_ns` of stdlib/runtime.c.
pub mod Digits
mod Tests
use kodlang.Base.{
  ℕ, ◌*◌, ◌^◌, Bytes, [], ◌∷◌, ◌++◌, Option, none, some, Run, ok, ◌>>=◌, codes, take, ltb, ◌==◌,
  if◌then◌else◌,
}
use kodlang.Base.Int.{ℤ, pos, negsuc, ltb_ℤ}
use kodlang.Clock.{Timespec, ns_of}

-- `cached` on entry, and on return, where it is the result; `res` is what `clock_getres` gives.
unfoldable pub monotonic_res_ns : Option Timespec → ℕ → Run ℕ
monotonic_res_ns res cached =
    let read = elim res as (λ _. Run ℕ) [ none ↦ ok cached | some r ↦ ns_of r ] in
    let found = read >>= λ ns. ok (if ns == 0 then 1 else ns) in
    if cached == 0 then found else ok cached

-- The unit, by the nanoseconds in it and its name.
pub record Scale : Type 0 where
  pub ns : ℕ
  pub name : Bytes

-- "μs" in UTF-8
abbrev pub microseconds : Bytes
microseconds = 206 ∷ 188 ∷ 115 ∷ []

unfoldable pub scale_of : ℤ → Scale
scale_of ns =
    let large =
      if ltb_ℤ ns (pos 1000000000)
      then record { ns = 1000000; name = codes "ms" }
      else record { ns = 1000000000; name = codes "s" } in
    if ltb_ℤ ns (pos 1000000) then record { ns = 1000; name = microseconds } else large

-- The digits behind the point, by `v < 10` and `v < 100` for `v = ns / unit`. The quotient that C
-- computes is rounded, but not past a whole number.
unfoldable pub decimals_of : ℤ → ℕ → ℕ
decimals_of ns unit =
    let more = if ltb_ℤ ns (pos (100 * unit)) then 1 else 0 in
    if ltb_ℤ ns (pos (10 * unit)) then 2 else more

-- `fixed` is what "%.*f" gives for a quotient: its digits behind the point, and its two parts. The
-- text is cut to `last` bytes, one less than `out_size`; `res` is what `monotonic_res_ns` returned.
unfoldable pub format_duration : (ℕ → ℤ → ℕ → Bytes) → ℕ → ℕ → ℤ → Bytes
format_duration fixed last res ns =
    let unit = scale_of ns in
    let digits = fixed (decimals_of ns unit.ns) ns unit.ns in
    let floor = 60 ∷ (fixed 2 (pos res) 1000 ++ 32 ∷ microseconds) in
    let shown = digits ++ 32 ∷ unit.name in
    elim ns [ pos n ↦ take last (if n == 0 then floor else shown) | negsuc n ↦ take last shown ]
