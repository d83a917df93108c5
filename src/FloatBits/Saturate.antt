-- ===== src/FloatBits/Saturate.antt =====
-- The conversion of a double to an integer.
use kodlang.Base.{
  Bool-cases, ap, inl, inr, ℕ, zero, suc, ◌-◌, ◌*◌, ◌/◌, ◌^◌, ◌<◌, ◌≤◌, min, ◌≡◌, refl, true, false,
  ok, leb, lt→ltb, le→leb, leb→le, if◌then◌else◌, arith,
}
use native.Mathlib.Nat.{pow-succ'}
use kodlang.Base.Int.{ℤ, pos, negsuc}
use kodlang.FloatBits.{
  Value, nan, infinite, finite, f64_of, past_max, past_min, negated, to_int64, is_nan,
  kod_f64_to_i64,
}

-- The integer nearest to a value towards zero, and then the nearest one in the range of int64_t.
abbrev pub saturated : Value → ℤ
saturated nan = pos 0
saturated (infinite false) = pos (2 ^ 63 - 1)
saturated (infinite true) = negsuc (2 ^ 63 - 1)
saturated (finite false m up down) = pos (min (m * 2 ^ up / 2 ^ down) (2 ^ 63 - 1))
saturated (finite true m up down) = negated (min (m * 2 ^ up / 2 ^ down) (2 ^ 63))

pow_pos : (n : ℕ) → 0 < 2 ^ n
pow_pos zero = omega arith
pow_pos (suc n) = let h = pow_pos n in rw (pow-succ' 2 n) (omega (arith, h))

-- A quotient reaches a bound exactly when the dividend does.
div_le : (a b c : ℕ) → 0 < b → c * b ≤ a → c ≤ a / b
div_le a b c h k = grind arith

div_lt : (a b c : ℕ) → 0 < b → a < c * b → a / b < c
div_lt a b c h k = grind arith

converted_lem :
    (d : Value)
    → (if is_nan d
        then ok (pos 0)
        else if past_max d
        then ok (pos (2 ^ 63 - 1))
        else if past_min d
        then ok (negsuc (2 ^ 63 - 1))
        else to_int64 d)
      ≡ ok (saturated d)
unfolding is_nan past_max past_min to_int64 negated
converted_lem nan = refl
converted_lem (infinite false) = refl
converted_lem (infinite true) = refl
converted_lem (finite false m up down) = elim (Bool-cases (leb (2 ^ 63 * 2 ^ down) (m * 2 ^ up))) [
  | inl past ↦
      let reaches =
        div_le (m * 2 ^ up) (2 ^ down) (2 ^ 63) (pow_pos down)
          (leb→le (2 ^ 63 * 2 ^ down) (m * 2 ^ up) past) in
      rw past (ap (λ n. ok (pos n)) (omega (arith, reaches)))
  | inr inside ↦
      let below = div_lt (m * 2 ^ up) (2 ^ down) (2 ^ 63) (pow_pos down) (ground (arith, inside)) in
      rw (inside, lt→ltb (m * 2 ^ up / 2 ^ down) (2 ^ 63) below)
        (ap (λ n. ok (pos n)) (omega (arith, below)))
]
converted_lem (finite true m up down) = elim (Bool-cases (leb (2 ^ 63 * 2 ^ down) (m * 2 ^ up))) [
  | inl past ↦
      let reaches =
        div_le (m * 2 ^ up) (2 ^ down) (2 ^ 63) (pow_pos down)
          (leb→le (2 ^ 63 * 2 ^ down) (m * 2 ^ up) past) in
      rw past (ap (λ n. ok (negated n)) {x = 2 ^ 63} (omega (arith, reaches)))
  | inr inside ↦
      let below = div_lt (m * 2 ^ up) (2 ^ down) (2 ^ 63) (pow_pos down) (ground (arith, inside)) in
      rw (inside, le→leb (m * 2 ^ up / 2 ^ down) (2 ^ 63) (omega (arith, below)))
        (ap (λ n. ok (negated n)) (omega (arith, below)))
]

-- On every bit pattern kod_f64_to_i64 has no undefined conversion. It gives the value of the double
-- without its fraction, moved into the range of int64_t where it lies outside, the end of the range
-- for an infinity, and 0 for a NaN.
pub kod_f64_to_i64_lem : (bits : ℕ) → kod_f64_to_i64 bits ≡ ok (saturated (f64_of bits))
unfolding kod_f64_to_i64
kod_f64_to_i64_lem bits = converted_lem (f64_of bits)
