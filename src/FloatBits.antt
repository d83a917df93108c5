-- ===== src/FloatBits.antt =====
-- `kod_f64_to_i64`, `kod_f64_is_nan` and `kod_f64_is_inf` of stdlib/runtime.c, on the bit patterns of
-- doubles.
pub mod Saturate
mod Tests
use kodlang.Base.{
  ℕ, zero, suc, ◌+◌, ◌-◌, ◌*◌, ◌/◌, ◌%◌, ◌^◌, Bool, true, false, Run, ok, undefined, ltb, leb, ◌==◌,
  if◌then◌else◌,
}
use kodlang.Base.Int.{ℤ, pos, negsuc}

-- What a bit pattern of IEEE 754 stands for. A finite number is `m * 2 ^ up / 2 ^ down` with a sign.
pub data Value : Type 0 where
  nan : Value
  infinite : (negative : Bool) → Value
  finite : (negative : Bool) (m up down : ℕ) → Value

-- 1 bit of sign, 11 of the exponent and 52 of the fraction.
unfoldable pub f64_of : ℕ → Value
f64_of bits =
    let negative = leb (2 ^ 63) bits in
    let exponent = bits / 2 ^ 52 % 2 ^ 11 in
    let fraction = bits % 2 ^ 52 in
    let special = if fraction == 0 then infinite negative else nan in
    let subnormal = finite negative fraction 0 1074 in
    let normal = finite negative (fraction + 2 ^ 52) (exponent - 1075) (1075 - exponent) in
    let number = if exponent == 0 then subnormal else normal in
    if exponent == 2047 then special else number

-- `d >= 9223372036854775808.0` and `d <= -9223372036854775808.0`, which are false for a NaN.
unfoldable pub past_max : Value → Bool
past_max (infinite false) = true
past_max (finite false m up down) = leb (2 ^ 63 * 2 ^ down) (m * 2 ^ up)
past_max _ = false

unfoldable pub past_min : Value → Bool
past_min (infinite true) = true
past_min (finite true m up down) = leb (2 ^ 63 * 2 ^ down) (m * 2 ^ up)
past_min _ = false

unfoldable pub negated : ℕ → ℤ
negated zero = pos 0
negated (suc n) = negsuc n

-- `(int64_t)d` drops the fraction, and is undefined where the rest does not fit.
unfoldable pub to_int64 : Value → Run ℤ
to_int64 (finite false m up down) =
    let n = m * 2 ^ up / 2 ^ down in if ltb n (2 ^ 63) then ok (pos n) else undefined
to_int64 (finite true m up down) =
    let n = m * 2 ^ up / 2 ^ down in if leb n (2 ^ 63) then ok (negated n) else undefined
to_int64 _ = undefined

-- `d != d`
unfoldable pub is_nan : Value → Bool
is_nan nan = true
is_nan _ = false

unfoldable pub is_inf : Value → Bool
is_inf (infinite negative) = true
is_inf _ = false

unfoldable pub kod_f64_to_i64 : ℕ → Run ℤ
kod_f64_to_i64 bits =
    let d = f64_of bits in
    let inside = if past_min d then ok (negsuc (2 ^ 63 - 1)) else to_int64 d in
    let number = if past_max d then ok (pos (2 ^ 63 - 1)) else inside in
    if is_nan d then ok (pos 0) else number

unfoldable pub kod_f64_is_nan : ℕ → ℕ
kod_f64_is_nan bits = if is_nan (f64_of bits) then 1 else 0

unfoldable pub kod_f64_is_inf : ℕ → ℕ
kod_f64_is_inf bits = if is_inf (f64_of bits) then 1 else 0
