-- ===== src/FloatBits/Tests.antt =====
-- Bit patterns of some doubles.
use kodlang.Base.{◌≡◌, refl, ok, ◌-◌, ◌^◌}
use kodlang.Base.Int.{pos, negsuc}
use kodlang.FloatBits.{
  f64_of, past_max, past_min, negated, to_int64, is_nan, is_inf, kod_f64_to_i64, kod_f64_is_nan,
  kod_f64_is_inf,
}
use kodlang.FloatBits.Saturate.{saturated, kod_f64_to_i64_lem}

-- -2.5
toward_zero : kod_f64_to_i64 0xc004_0000_0000_0000 ≡ ok (negsuc 1)
unfolding kod_f64_to_i64 f64_of is_nan past_max past_min to_int64 negated
toward_zero = refl

-- 2^63, the first double past the largest integer.
too_large : kod_f64_to_i64 0x43e0_0000_0000_0000 ≡ ok (pos (2 ^ 63 - 1))
unfolding kod_f64_to_i64 f64_of is_nan past_max
too_large = refl

-- The smallest positive number.
smallest : kod_f64_to_i64 1 ≡ ok (pos 0)
unfolding kod_f64_to_i64 f64_of is_nan past_max past_min to_int64
smallest = refl

a_nan : kod_f64_is_nan 0x7ff8_0000_0000_0000 ≡ 1
unfolding kod_f64_is_nan f64_of is_nan
a_nan = refl

an_infinity : kod_f64_is_inf 0xfff0_0000_0000_0000 ≡ 1
unfolding kod_f64_is_inf f64_of is_inf
an_infinity = refl

kod_f64_to_i64_lem_example :
    kod_f64_to_i64 0x43e0_0000_0000_0000 ≡ ok (saturated (f64_of 0x43e0_0000_0000_0000))
kod_f64_to_i64_lem_example = kod_f64_to_i64_lem 0x43e0_0000_0000_0000
