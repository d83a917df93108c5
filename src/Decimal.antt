-- ===== src/Decimal.antt =====
-- `kod_f64_to_str` of stdlib/runtime.c. A double is a parameter, by what the code asks of it.
pub mod Loops
pub mod Layout
pub mod Scientific
pub mod Shortest
pub mod Text
pub mod Valid
pub mod ReadsBack
mod Sample
mod Tests
use kodlang.Base.{
  ℕ, zero, suc, ◌+◌, ◌-◌, Bytes, List, [], ◌∷◌, ◌++◌, Bool, true, false, ◌&&◌, not, Run, ok,
  undefined, ◌>>=◌, load, codes, length, ltb, leb, ◌==◌, if◌then◌else◌,
}
use kodlang.Base.Int.{ℤ, pos, negsuc}
use kodlang.Str.{KodStr, kod_str_from_bytes}

-- `sci` is what `snprintf` gives for "%.*e" with a number of digits behind the point, and
-- `reads_back` whether `strtod` makes the double of a text.
pub record Double : Type 0 where
  pub is_nan : Bool
  pub is_inf : Bool
  pub below_zero : Bool
  pub is_zero : Bool
  pub signbit : Bool
  pub sci : ℕ → Bytes
  pub reads_back : Bytes → Bool

-- `for (prec = 1; prec <= 17; prec++)`, by the rounds that are left; `text` is that of the last one.
unfoldable pub shortest : ℕ → ℕ → Double → Bytes → Bytes
shortest zero prec d text = text
shortest (suc rounds) prec d text =
    let next = d.sci (prec - 1) in
    let rest = shortest rounds (prec + 1) d next in if d.reads_back next then next else rest

-- `out[n++] = c` with an array of `size` bytes, of which those written so far are kept.
unfoldable pub push : ℕ → Bytes → ℕ → Run Bytes
push size out c = if ltb (length out) size then ok (out ++ c ∷ []) else undefined

-- `for (; *p && *p != 'e'; p++)` on the text up to its NUL: the digits, and the text at `p`.
unfoldable pub scan_digits : Bytes → Bytes → Run (Bytes × Bytes)
scan_digits [] digits = ok (digits, [])
scan_digits (c ∷ p) digits =
    let kept = push 24 digits c >>= λ more. scan_digits p more in
    let onward = if c == 46 then scan_digits p digits else kept in
    if c == 101 then ok (digits, c ∷ p) else onward

-- `while (nd > 1 && digits[nd - 1] == '0') nd--;`
unfoldable pub strip_zeros : Bytes → ℕ → Run ℕ
strip_zeros digits zero = ok 0
strip_zeros digits (suc zero) = ok 1
strip_zeros digits (suc (suc n)) =
    let fewer = strip_zeros digits (suc n) in
    load digits (suc n) >>= λ c. if c == 48 then fewer else ok (suc (suc n))

-- `for (...) out[n++] = digits[i];`, by the rounds that are left.
unfoldable pub put_digits : ℕ → ℕ → Bytes → Bytes → Run Bytes
put_digits zero i digits out = ok out
put_digits (suc rounds) i digits out = do
  c ← load digits i
  more ← push 64 out c
  put_digits rounds (i + 1) digits more

-- `for (...) out[n++] = i < nd ? digits[i] : '0';`
unfoldable pub put_padded : ℕ → ℕ → ℕ → Bytes → Bytes → Run Bytes
put_padded zero i nd digits out = ok out
put_padded (suc rounds) i nd digits out = do
  c ← if ltb i nd then load digits i else ok 48
  more ← push 64 out c
  put_padded rounds (i + 1) nd digits more

unfoldable pub put_zeros : ℕ → Bytes → Run Bytes
put_zeros zero out = ok out
put_zeros (suc rounds) out = push 64 out 48 >>= λ more. put_zeros rounds more

-- A text that `snprintf` writes behind `out`, where it has room for it and a NUL.
unfoldable pub put_text : Bytes → Bytes → Run Bytes
put_text text out = if ltb (length out + length text) 64 then ok (out ++ text) else undefined

-- 0 <= exp10 < 21
unfoldable pub put_large : ℕ → ℕ → Bytes → Bytes → Run Bytes
put_large exp nd digits out = do
  whole ← put_padded (exp + 1) 0 nd digits out
  pointed ← push 64 whole 46
  if ltb (exp + 1) nd
      then put_digits (nd - (exp + 1)) (exp + 1) digits pointed
      else push 64 pointed 48

-- -6 <= exp10 < 0, with `zeros` for -exp10 - 1
unfoldable pub put_small : ℕ → ℕ → Bytes → Bytes → Run Bytes
put_small zeros nd digits out = do
  first ← push 64 out 48
  pointed ← push 64 first 46
  behind ← put_zeros zeros pointed
  put_digits nd 0 digits behind

-- `print` is what "%d" gives for a number that is not negative.
module _ (print : ℕ → Bytes) where
  unfoldable pub put_power : ℤ → Bytes → Run Bytes
  put_power (pos exp) out = put_text (101 ∷ 43 ∷ print exp) out
  put_power (negsuc n) out = put_text (101 ∷ 45 ∷ print (suc n)) out

  unfoldable pub put_scientific : ℤ → ℕ → Bytes → Bytes → Run Bytes
  put_scientific exp nd digits out = do
    c ← load digits 0
    first ← push 64 out c
    let behind = push 64 first 46 >>= λ pointed. put_digits (nd - 1) 1 digits pointed
    all ← if ltb 1 nd then behind else ok first
    put_power exp all

  unfoldable pub lay_out : ℤ → ℕ → Bytes → Bytes → Run Bytes
  lay_out (pos exp) nd digits out =
      if ltb exp 21 then put_large exp nd digits out else put_scientific (pos exp) nd digits out
  lay_out (negsuc n) nd digits out =
      if ltb n 6 then put_small n nd digits out else put_scientific (negsuc n) nd digits out

  -- From the parse of `sci` on; `atoi` is that of the C library, on the text behind the `e`.
  unfoldable pub parts : (Bytes → ℤ) → Bytes → Bytes → Run Bytes
  parts atoi text out = do
    (digits, rest) ← scan_digits text []
    nd ← strip_zeros digits (length digits)
    exponent ← (elim rest [ [] ↦ undefined | e ∷ behind ↦ ok (atoi behind) ])
    lay_out exponent nd digits out

  unfoldable pub signed_parts : (Bytes → ℤ) → Bytes → Run Bytes
  signed_parts atoi [] = parts atoi [] []
  signed_parts atoi (c ∷ text) =
      if c == 45 then (push 64 [] 45 >>= λ out. parts atoi text out) else parts atoi (c ∷ text) []

  unfoldable pub kod_f64_to_str : (ℕ → ℕ) → (Bytes → ℤ) → Double → Run KodStr
  kod_f64_to_str junk atoi d =
      let finite = signed_parts atoi (shortest 17 1 d []) >>= λ out.
      kod_str_from_bytes junk out (length out) in
      let zeros =
        if d.signbit
        then kod_str_from_bytes junk (codes "-0.0" ++ 0 ∷ []) 4
        else kod_str_from_bytes junk (codes "0.0" ++ 0 ∷ []) 3 in
      let infinite =
        if d.below_zero
        then kod_str_from_bytes junk (codes "-inf" ++ 0 ∷ []) 4
        else kod_str_from_bytes junk (codes "inf" ++ 0 ∷ []) 3 in
      let nonzero = if d.is_zero then zeros else finite in
      let number = if d.is_inf then infinite else nonzero in
      if d.is_nan then kod_str_from_bytes junk (codes "nan" ++ 0 ∷ []) 3 else number
