-- ===== src/Decimal/Valid.antt =====
-- The texts of doubles are numbers of the grammar that is read.
use kodlang.Base.{
  Bool-cases, ℕ, zero, suc, ◌≡◌, inl, inr, refl, sym, subst, ap, ◌∙◌, Bytes, [], ◌∷◌, ◌++◌, Bool,
  true, false, ok, ◌>>=◌, codes, replicate, append_assoc, append-nil, if◌then◌else◌, load, arith,
}
use kodlang.Base.Int.{ℤ}
use kodlang.Str.Repr.{str_of}
use kodlang.Str.Ops.{kod_str_from_bytes_lem}
use kodlang.Decimal.{Double, kod_f64_to_str}
use kodlang.Decimal.Layout.{Prints, Tail, no_power, up, down, Shows}
use kodlang.Decimal.Shortest.{sign_text, Documented}
use kodlang.Decimal.Text.{IsText, kod_f64_to_str_lem}
use kodlang.Float.{holds, skip_sign, digits_loop, mantissa, exponent, kod_f64_valid}
use kodlang.Float.Grammar.{
  AllDigits, Sign, unsigned, signed, Mantissa, whole, pointed, Exponent, absent, power, Number,
}
use kodlang.Float.Valid.{kod_f64_valid_lem}

pub AllDigits-append : (xs ys : Bytes) → AllDigits xs → AllDigits ys → AllDigits (xs ++ ys)
AllDigits-append [] ys a b = b
AllDigits-append (x ∷ xs) ys (low, high, a) b = (low, high, AllDigits-append xs ys a b)

pub AllDigits-split : (xs ys : Bytes) → AllDigits (xs ++ ys) → AllDigits xs × AllDigits ys
AllDigits-split [] ys a = (tt, a)
AllDigits-split (x ∷ xs) ys (low, high, a) =
    let (b, c) = AllDigits-split xs ys a in ((low, high, b), c)

pub AllDigits-zeros : (n : ℕ) → AllDigits (replicate n 48)
AllDigits-zeros zero = tt
AllDigits-zeros (suc n) = (omega arith, omega arith, AllDigits-zeros n)

Exponent-Tail :
    {print : ℕ → Bytes} {tail : Bytes} {e : ℤ} → Prints print → Tail print tail e → Exponent tail
Exponent-Tail p no_power = absent
Exponent-Tail {print} p (up n h) =
    power (43 ∷ []) (print n) (inl refl) refl (signed (inl refl)) (p.digits n h) (p.some_digit n h)
Exponent-Tail {print} p (down n h) =
    power (45 ∷ []) (print (suc n)) (inl refl) refl (signed (inr refl)) (p.digits (suc n) h)
      (p.some_digit (suc n) h)

Sign-sign_text : (negative : Bool) → Sign (sign_text negative)
Sign-sign_text true = signed (inr refl)
Sign-sign_text false = unsigned

Mantissa-Shows :
    {print : ℕ → Bytes} {ds : Bytes} {exp : ℤ} {text : Bytes}
    → AllDigits ds
    → (s : Shows print ds exp text) → Mantissa (s.left ++ s.behind)
Mantissa-Shows {ds = ds} a s =
    let all =
      AllDigits-append (replicate s.before 48) (ds ++ replicate s.after 48)
        (AllDigits-zeros s.before)
        (AllDigits-append ds (replicate s.after 48) a (AllDigits-zeros s.after)) in
    let (left, right) = AllDigits-split s.left s.right (subst AllDigits (sym s.same_digits) all) in
    elim s.pointed [
      | inl point ↦
          pointed s.left s.right (ap (λ b. s.left ++ b) point) left right
            (omega (arith, s.some_left))
      | inr (none_behind, _, _) ↦
          subst Mantissa (sym (ap (λ b. s.left ++ b) none_behind ∙ append-nil s.left))
            (whole left s.some_left)
    ]

pub Number-IsText :
    {print : ℕ → Bytes} {negative : Bool} {ds : Bytes} {exp : ℤ} {text : Bytes}
    → Prints print
    → AllDigits ds
    → IsText print negative ds exp text
    → Number text
Number-IsText {negative = negative} p a t =
    let s = t.shows in
    let (kept, zeros) =
      AllDigits-split t.kept (replicate t.stripped.zeros 48) (subst AllDigits t.stripped.split a) in
    record {
      sign = sign_text negative;
      digits = s.left ++ s.behind;
      exponent = s.tail;
      split =
          t.split
          ∙ ap (λ n. sign_text negative ++ n) (s.split ∙ sym (append_assoc s.left s.behind s.tail));
      is_signed = Sign-sign_text negative;
      has_digits = Mantissa-Shows kept s;
      has_exponent = Exponent-Tail p s.is_tail;
    }

accepted : (text : Bytes) → Number text → kod_f64_valid (str_of text) ≡ ok 1
accepted text n = elim (kod_f64_valid_lem text) [
  | inl (e, _) ↦ e
  | inr (_, no_number) ↦ absurd (no_number n)
]

valid_zero : kod_f64_valid (str_of (codes "0.0")) ≡ ok 1
unfolding kod_f64_valid skip_sign holds mantissa exponent digits_loop load
valid_zero = refl

valid_negative_zero : kod_f64_valid (str_of (codes "-0.0")) ≡ ok 1
unfolding kod_f64_valid skip_sign holds mantissa exponent digits_loop load
valid_negative_zero = refl

module _ {print : ℕ → Bytes} (prints : Prints print) (atoi : Bytes → ℤ) (junk : ℕ → ℕ) where
  zero_lem :
      (d : Double)
      → d.is_nan ≡ false
      → d.is_inf ≡ false
      → d.is_zero ≡ true
      → kod_f64_to_str print junk atoi d
        ≡ ok (str_of (if d.signbit then codes "-0.0" else codes "0.0"))
  unfolding kod_f64_to_str
  zero_lem d nan inf is_zero = elim (Bool-cases d.signbit) [
    | inl e ↦
        rw (e, nan, inf, is_zero)
          (kod_str_from_bytes_lem junk (codes "-0.0") (0 ∷ []) (omega arith))
    | inr e ↦
        rw (e, nan, inf, is_zero) (kod_str_from_bytes_lem junk (codes "0.0") (0 ∷ []) (omega arith))
  ]

  -- The text that kod_f64_to_str makes of a finite double is a number that kod_f64_valid accepts,
  -- with what the C library documents of the texts of a double that is not zero.
  pub kod_f64_valid-kod_f64_to_str :
      (d : Double)
      → d.is_nan ≡ false
      → d.is_inf ≡ false
      → (d.is_zero ≡ false → Documented atoi d)
      → (kod_f64_to_str print junk atoi d >>= kod_f64_valid) ≡ ok 1
  kod_f64_valid-kod_f64_to_str d nan inf k = elim (Bool-cases d.is_zero) [
    | inl is_zero ↦
        rw (zero_lem d nan inf is_zero) (elim (Bool-cases d.signbit) [
          | inl e ↦ rw e valid_negative_zero
          | inr e ↦ rw e valid_zero
        ])
    | inr nonzero ↦
        let (prec, ds, exp, text, is, size, scientific, shown, e) =
          kod_f64_to_str_lem prints atoi junk d nan inf nonzero (k nonzero) in
        rw e (accepted text (Number-IsText prints scientific.digits shown))
  ]
