-- ===== src/Decimal/Tests.antt =====
-- The text of -2.5e21.
use kodlang.Base.{
  ℕ, ◌-◌, ◌≡◌, refl, Bytes, [], true, ok, ◌>>=◌, codes, length, ◌==◌, load, memcpy, store,
  add_int64, fresh,
}
use kodlang.Base.Int.{ℤ, pos, negsuc}
use kodlang.Str.{kod_str_from_bytes, kod_str_new}
use kodlang.Str.Repr.{str_of}
use kodlang.Decimal.{
  shortest, push, scan_digits, strip_zeros, parts, signed_parts, put_digits, put_padded, put_zeros,
  put_text, put_large, put_small, put_power, put_scientific, lay_out, kod_f64_to_str,
}
use kodlang.Decimal.Shortest.{IsScientific, IsShortest}
use kodlang.Decimal.Text.{IsText, kod_f64_to_str_lem}
use kodlang.Decimal.ReadsBack.{reads_back-kod_f64_to_str}
use kodlang.Decimal.Valid.{kod_f64_valid-kod_f64_to_str}
use kodlang.Float.{kod_f64_valid}
use kodlang.Decimal.Sample.{
  number, print_int, read_int, seven, last_digit, print_int-Prints, number-Documented,
  number-ByValue, print_int-ReadsPrinted, number-HasExponents,
}

reads_back-kod_f64_to_str_example :
    (text : Bytes) × (kod_f64_to_str print_int seven read_int number ≡ ok (str_of text))
    × ((last_digit 48 text == 53) ≡ true)
reads_back-kod_f64_to_str_example =
    reads_back-kod_f64_to_str print_int-Prints read_int print_int-ReadsPrinted seven number refl
      refl refl number-Documented number-HasExponents number-ByValue

kod_f64_to_str_lem_example :
    (prec : ℕ) × (ds : Bytes) × (exp : ℤ) × (text : Bytes) × IsShortest number prec
    × (length ds ≡ prec)
    × IsScientific read_int true ds exp (number.sci (prec - 1))
    × IsText print_int true ds exp text
    × (kod_f64_to_str print_int seven read_int number ≡ ok (str_of text))
kod_f64_to_str_lem_example =
    kod_f64_to_str_lem print_int-Prints read_int seven number refl refl refl number-Documented

kod_f64_valid-kod_f64_to_str_example :
    (kod_f64_to_str print_int seven read_int number >>= kod_f64_valid) ≡ ok 1
kod_f64_valid-kod_f64_to_str_example =
    kod_f64_valid-kod_f64_to_str print_int-Prints read_int seven number refl refl
      (λ h. number-Documented)

-- The forms that the size of the exponent asks for.
laid_whole : lay_out print_int (pos 3) 2 (codes "25") [] ≡ ok (codes "2500.0")
unfolding lay_out put_large put_padded push load
laid_whole = refl

laid_pointed : lay_out print_int (pos 0) 2 (codes "25") (codes "-") ≡ ok (codes "-2.5")
unfolding lay_out put_large put_padded put_digits push load
laid_pointed = refl

laid_small : lay_out print_int (negsuc 2) 2 (codes "25") [] ≡ ok (codes "0.0025")
unfolding lay_out put_small put_zeros put_digits push load
laid_small = refl

laid_power : lay_out print_int (negsuc 6) 1 (codes "5") [] ≡ ok (codes "5e-7")
unfolding lay_out put_scientific put_power put_text push load
laid_power = refl

-- One digit does not read back, and two do.
whole_text : kod_f64_to_str print_int seven read_int number ≡ ok (str_of (codes "-2.5e+21"))
unfolding kod_f64_to_str signed_parts parts shortest push scan_digits strip_zeros lay_out
    put_scientific put_digits put_power put_text load kod_str_from_bytes kod_str_new memcpy store
    add_int64 fresh
whole_text = refl
