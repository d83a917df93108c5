-- ===== src/Float/Tests.antt =====
-- Numbers and other texts.
use kodlang.Base.{◌≡◌, ◌⊎◌, refl, ok, codes, load}
use kodlang.Str.Repr.{str_of}
use kodlang.Float.{holds, skip_sign, digits_loop, mantissa, exponent, kod_f64_valid}
use kodlang.Float.Grammar.{Number}
use kodlang.Float.Valid.{kod_f64_valid_lem}

point_last : kod_f64_valid (str_of (codes "-7.")) ≡ ok 1
unfolding kod_f64_valid skip_sign holds mantissa exponent digits_loop load
point_last = refl

no_power : kod_f64_valid (str_of (codes "1.5e+")) ≡ ok 0
unfolding kod_f64_valid skip_sign holds mantissa exponent digits_loop load
no_power = refl

no_digits : kod_f64_valid (str_of (codes ".")) ≡ ok 0
unfolding kod_f64_valid skip_sign holds mantissa exponent digits_loop load
no_digits = refl

kod_f64_valid_lem_example :
    ((kod_f64_valid (str_of (codes "+.5E-3")) ≡ ok 1) × Number (codes "+.5E-3"))
    ⊎ ((kod_f64_valid (str_of (codes "+.5E-3")) ≡ ok 0) × (Number (codes "+.5E-3") → ⊥))
kod_f64_valid_lem_example = kod_f64_valid_lem (codes "+.5E-3")
