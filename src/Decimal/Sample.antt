-- ===== src/Decimal/Sample.antt =====
-- The double -2.5e21, and functions of the C library that keep what is asked of them.
use kodlang.Base.{
  Bool-cases, ◌⊎◌, zero, suc, Bool, ◌||◌, inl, inr, ◌∙◌, ◌<◌, ℕ, ◌+◌, ◌-◌, ◌*◌, ◌/◌, ◌%◌, ◌≡◌, refl,
  sym, subst, ap, Bytes, [], ◌∷◌, ◌++◌, true, false, codes, length, length-take, take, drop,
  take-append-drop, replicate, ltb, ◌==◌, if◌then◌else◌, arith,
}
use kodlang.Base.Int.{ℤ, pos, negsuc, sub_ℕ}
use kodlang.Decimal.{Double}
use kodlang.Decimal.Layout.{Prints}
use kodlang.Decimal.Shortest.{sign_text, with_point, Documented}
use kodlang.Decimal.ReadsBack.{
  IsPower, IsExponent, HasExponents, behind_e-scientific, Denotes, ByValue, ReadsPrinted,
}
use kodlang.Decimal.Valid.{AllDigits-append, AllDigits-split, AllDigits-zeros}
use kodlang.Float.Grammar.{AllDigits, signed}

abbrev pub print_int : ℕ → Bytes
print_int n =
    let two = (48 + n / 10) ∷ (48 + n % 10) ∷ [] in
    let three = (48 + n / 100) ∷ (48 + n / 10 % 10) ∷ (48 + n % 10) ∷ [] in
    let many = if ltb n 100 then two else three in if ltb n 10 then (48 + n) ∷ [] else many

abbrev value_of : ℕ → Bytes → ℕ
value_of n [] = n
value_of n (c ∷ text) = value_of (n * 10 + (c - 48)) text

abbrev pub read_int : Bytes → ℤ
read_int [] = pos 0
read_int (c ∷ text) = if c == 45 then sub_ℕ 0 (value_of 0 text) else pos (value_of 0 text)

abbrev pub seven : ℕ → ℕ
seven i = 7

abbrev all_digits : Bytes
all_digits = 50 ∷ 53 ∷ replicate 15 48

-- The last digit of a number that is not zero, or `last` where there is none.
abbrev pub last_digit : ℕ → Bytes → ℕ
last_digit last [] = last
last_digit last (c ∷ text) =
    let without = last_digit last text in
    let with_c = last_digit c text in
    let onward = if c == 45 || c == 46 || c == 48 then without else with_c in
    if c == 101 then last else onward

-- "-2e+21" is another number. Only the number that a text denotes is looked at.
abbrev pub number : Double
number = record {
  is_nan = false;
  is_inf = false;
  below_zero = true;
  is_zero = false;
  signbit = true;
  sci = λ p. 45 ∷ (with_point (take (p + 1) all_digits) ++ codes "e+21");
  reads_back = λ text. last_digit 48 text == 53;
}

pub print_int-Prints : Prints print_int
print_int-Prints = record {
  digits = λ n h. ground (arith, h);
  some_digit = λ n h. ground (arith, h);
  few = λ n h. ground (arith, h);
}

AllDigits-take : (n : ℕ) (xs : Bytes) → AllDigits xs → AllDigits (take n xs)
AllDigits-take n xs a =
    (AllDigits-split (take n xs) (drop n xs) (subst AllDigits (sym (take-append-drop n xs)) a)).0

pub number-Documented : Documented read_int number
number-Documented = record {
  scientific = λ prec h k. (
    take prec all_digits,
    pos 21,
    omega (arith, length-take prec all_digits),
    record {
      power = codes "+21";
      split =
          ap (λ p. 45 ∷ (with_point (take p all_digits) ++ codes "e+21")) {x = prec - 1 + 1}
            (omega arith);
      digits =
          AllDigits-take prec all_digits
            (omega arith, omega arith, (omega arith, omega arith, AllDigits-zeros 15));
      exponent = refl;
      small = omega arith;
    },
  );
  enough = refl;
}

pub number-HasExponents : HasExponents number
number-HasExponents prec h k =
    subst IsExponent
      (sym (
        behind_e-scientific true (take (prec - 1 + 1) all_digits) (codes "+21") (
          AllDigits-take (prec - 1 + 1) all_digits
            (omega arith, omega arith, (omega arith, omega arith, AllDigits-zeros 15)))))
      (record {
        sign = codes "+";
        digits = codes "21";
        split = refl;
        is_signed = signed (inl refl);
        all_digits = (omega arith, omega arith, (omega arith, omega arith, tt));
        some_digit = omega arith;
        few = omega arith;
      })

abbrev last_of : ℕ → Bytes → ℕ
last_of last [] = last
last_of last (c ∷ digits) = last_of (if c == 48 then last else c) digits

last_of-append : (last : ℕ) (xs ys : Bytes) → last_of last (xs ++ ys) ≡ last_of (last_of last xs) ys
last_of-append last [] ys = refl
last_of-append last (x ∷ xs) ys = last_of-append (if x == 48 then last else x) xs ys

last_of-zeros : (last n : ℕ) → last_of last (replicate n 48) ≡ last
last_of-zeros last zero = refl
last_of-zeros last (suc n) = last_of-zeros last n

last_digit-append :
    (last : ℕ) (xs text : Bytes)
    → AllDigits xs
    → last_digit last (xs ++ text) ≡ last_digit (last_of last xs) text
last_digit-append last [] text a = refl
last_digit-append last (x ∷ xs) text (low, high, a) =
    let no_e : (x == 101) ≡ false = ground (arith, high) in
    let no_sign : (x == 45) ≡ false = ground (arith, low) in
    let no_point : (x == 46) ≡ false = ground (arith, low) in
    elim (Bool-cases (x == 48)) [
      | inl z ↦ rw (no_e, no_sign, no_point, z) (last_digit-append last xs text a)
      | inr z ↦ rw (no_e, no_sign, no_point, z) (last_digit-append x xs text a)
    ]

last_digit-tail :
    (last : ℕ) (tail : Bytes) (power : ℤ)
    → IsPower read_int tail power
    → last_digit last tail ≡ last
last_digit-tail last tail power (inl (e, f)) = rw e refl
last_digit-tail last tail power (inr (w, e, x, f)) = rw e refl

-- Behind the digits in front of the point.
last_digit-behind :
    (last : ℕ) (right behind tail : Bytes) (power : ℤ)
    → AllDigits right
    → (behind ≡ 46 ∷ right) ⊎ ((behind ≡ []) × (right ≡ []) × (0 < length tail))
    → IsPower read_int tail power
    → last_digit last (behind ++ tail) ≡ last_of last right
last_digit-behind last right behind tail power a (inl e) p =
    ap (λ b. last_digit last (b ++ tail)) e
    ∙ last_digit-append last right tail a
    ∙ last_digit-tail (last_of last right) tail power p
last_digit-behind last right behind tail power a (inr (e, f, n)) p =
    ap (λ b. last_digit last (b ++ tail)) e
    ∙ last_digit-tail last tail power p
    ∙ ap (last_of last) (sym f)

last_digit-Denotes :
    (ds : Bytes) (exp : ℤ) (text : Bytes)
    → AllDigits ds
    → Denotes read_int ds exp text
    → last_digit 48 text ≡ last_of 48 ds
last_digit-Denotes ds exp text a d =
    let shown =
      AllDigits-append (replicate d.before 48) (ds ++ replicate d.after 48)
        (AllDigits-zeros d.before)
        (AllDigits-append ds (replicate d.after 48) a (AllDigits-zeros d.after)) in
    let (left, right) =
      AllDigits-split d.left d.right (subst AllDigits (sym d.same_digits) shown) in
    ap (last_digit 48) d.split
    ∙ last_digit-append 48 d.left (d.behind ++ d.tail) left
    ∙ last_digit-behind (last_of 48 d.left) d.right d.behind d.tail d.power right d.pointed
        d.is_power
    ∙ sym (last_of-append 48 d.left d.right)
    ∙ ap (last_of 48) d.same_digits
    ∙ last_of-append 48 (replicate d.before 48) (ds ++ replicate d.after 48)
    ∙ ap (λ n. last_of n (ds ++ replicate d.after 48)) (last_of-zeros 48 d.before)
    ∙ last_of-append 48 ds (replicate d.after 48)
    ∙ last_of-zeros (last_of 48 ds) d.after

last_digit-sign :
    (negative : Bool) (text : Bytes)
    → last_digit 48 (sign_text negative ++ text) ≡ last_digit 48 text
last_digit-sign true text = refl
last_digit-sign false text = refl

pub number-ByValue : ByValue read_int number
number-ByValue = record {
  same = λ negative ds exp s t a p q.
      ap (λ n. n == 53)
        (last_digit-sign negative s
          ∙ last_digit-Denotes ds exp s a p
          ∙ sym (last_digit-sign negative t ∙ last_digit-Denotes ds exp t a q));
}

value_of-print_int : (n : ℕ) → n < 1000 → value_of 0 (print_int n) ≡ n
value_of-print_int n h = ground (arith, h)

below_zero : (n : ℕ) → sub_ℕ 0 (suc n) ≡ negsuc n
below_zero n = ground arith

pub print_int-ReadsPrinted : ReadsPrinted read_int print_int
print_int-ReadsPrinted = record {
  plus = λ n h. ap pos (value_of-print_int n h);
  minus = λ n h. ap (sub_ℕ 0) (value_of-print_int (suc n) h) ∙ below_zero n;
}
