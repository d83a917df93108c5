-- ===== src/Float.antt =====
-- The check of a decimal number in stdlib/runtime.c.
pub mod Scan
pub mod Grammar
pub mod Sound
pub mod Valid
mod Tests
use kodlang.Base.{
  ℕ, zero, suc, ◌+◌, Bytes, Option, none, some, Bool, true, false, ◌&&◌, ◌||◌, Run, ok, out_of_fuel,
  ◌>>=◌, load, ltb, leb, ◌==◌, if◌then◌else◌,
}
use kodlang.Str.{KodStr}

abbrev pub is_digit : ℕ → Bool
is_digit c = leb 48 c && leb c 57

abbrev pub is_sign : ℕ → Bool
is_sign c = c == 43 || c == 45

abbrev pub is_point : ℕ → Bool
is_point c = c == 46

abbrev pub is_e : ℕ → Bool
is_e c = c == 101 || c == 69

-- `i < n && test(p[i])`
unfoldable pub holds : (ℕ → Bool) → Bytes → ℕ → ℕ → Run Bool
holds test p n i = if ltb i n then (load p i >>= λ c. ok (test c)) else ok false

-- `i` after an optional sign.
unfoldable pub skip_sign : Bytes → ℕ → ℕ → Run ℕ
skip_sign p n i = holds is_sign p n i >>= λ b. ok (if b then i + 1 else i)

-- `while (i < n && p[i] >= '0' && p[i] <= '9') { i++; count++; }`, on fuel.
unfoldable pub digits_loop : ℕ → Bytes → ℕ → ℕ → ℕ → Run (ℕ × ℕ)
digits_loop zero p n i count = out_of_fuel
digits_loop (suc fuel) p n i count =
    let more = digits_loop fuel p n (i + 1) (count + 1) in
    holds is_digit p n i >>= λ b. if b then more else ok (i, count)

-- The digits with an optional point: `i` after them, and their number.
unfoldable pub mantissa : Bytes → ℕ → ℕ → Run (ℕ × ℕ)
mantissa p n i = digits_loop (n + 1) p n i 0 >>= λ whole. holds is_point p n whole.0 >>= λ b.
    if b then digits_loop (n + 1) p n (whole.0 + 1) whole.1 else ok whole

-- `i` after an optional exponent, or `none` for an exponent without digits.
unfoldable pub exponent : Bytes → ℕ → ℕ → Run (Option ℕ)
exponent p n i =
    let digits = skip_sign p n (i + 1) >>= λ j.
    digits_loop (n + 1) p n j 0 >>= λ r. ok (if r.1 == 0 then none else some r.0) in
    holds is_e p n i >>= λ b. if b then digits else ok (some i)

unfoldable pub kod_f64_valid : KodStr → Run ℕ
kod_f64_valid s = skip_sign s.buf s.len 0 >>= λ i. mantissa s.buf s.len i >>= λ m.
    let rest = exponent s.buf s.len m.0 >>= λ e. elim e [
      | none ↦ ok 0
      | some k ↦ ok (if k == s.len then 1 else 0)
    ] in
    if m.1 == 0 then ok 0 else rest
