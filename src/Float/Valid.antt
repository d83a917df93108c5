-- ===== src/Float/Valid.antt =====
-- A number is accepted.
use kodlang.Base.{
  Bool-cases, ℕ, ◌+◌, ◌<◌, ◌≡◌, ◌⊎◌, inl, inr, refl, sym, subst, ap, ◌∙◌, Bytes, [], ◌∷◌, ◌++◌,
  true, false, ok, length, append_assoc, append-nil, ◌||◌, ◌==◌, if◌then◌else◌, arith,
}
use kodlang.Str.Repr.{str_of}
use kodlang.Float.{is_digit, is_sign, is_point, kod_f64_valid}
use kodlang.Float.Scan.{
  head_is, next_if, digit_count, after_digits, mantissa_of, digits_of, with_e, exponent_of,
  all_used, accepts, flag, kod_f64_valid-accepts,
}
use kodlang.Float.Grammar.{
  AllDigits, Sign, unsigned, signed, Mantissa, whole, pointed, Exponent, absent, power, Number,
}
use kodlang.Float.Sound.{accepts-Number}

digits_take :
    (ds rest : Bytes)
    → AllDigits ds
    → head_is is_digit rest ≡ false
    → (digit_count (ds ++ rest) ≡ length ds) × (after_digits (ds ++ rest) ≡ rest)
digits_take [] [] a h = (refl, refl)
digits_take [] (c ∷ rest) a h = (rw h refl, rw h refl)
digits_take (d ∷ ds) rest (low, high, a) h =
    let (n, e) = digits_take ds rest a h in
    let is : is_digit d ≡ true = ground (arith, low, high) in (rw is (omega (arith, n)), rw is e)

one_of-either : (c a b : ℕ) → (c ≡ a) ⊎ (c ≡ b) → (c == a || c == b) ≡ true
one_of-either c a b (inl e) = ground (arith, e)
one_of-either c a b (inr e) = ground (arith, e)

Sign-take :
    {s : Bytes} (rest : Bytes)
    → Sign s
    → head_is is_sign rest ≡ false
    → next_if is_sign (s ++ rest) ≡ rest
Sign-take [] unsigned h = refl
Sign-take (c ∷ rest) unsigned h = rw h refl
Sign-take rest (signed {c} k) h = rw (one_of-either c 43 45 k) refl

-- An exponent starts with no digit and no point, and is used up.
Exponent-head :
    {e : Bytes} → Exponent e → (head_is is_digit e ≡ false) × (head_is is_point e ≡ false)
Exponent-head absent = (refl, refl)
Exponent-head (power s ds (inl k) r g a n) = (ground (arith, k), ground (arith, k))
Exponent-head (power s ds (inr k) r g a n) = (ground (arith, k), ground (arith, k))

digits_head :
    (ds : Bytes)
    → AllDigits ds
    → 0 < length ds
    → (rest : Bytes) → head_is is_sign (ds ++ rest) ≡ false
digits_head [] a h rest = absurd (omega arith)
digits_head (d ∷ ds) (low, high, a) h rest = ground (arith, low, high)

digits_used : (ds : Bytes) → AllDigits ds → 0 < length ds → all_used (digits_of ds) ≡ true
digits_used ds a n =
    let (count, behind) = digits_take ds [] a refl in
    let some_digits : (length ds == 0) ≡ false = ground arith in
    subst (λ z. all_used (digits_of z) ≡ true) (append-nil ds)
      (rw (count, behind, some_digits) refl)

Exponent-take : {e : Bytes} → Exponent e → all_used (exponent_of e) ≡ true
Exponent-take absent = refl
Exponent-take (power {e = e} {rest} s ds k r g a n) =
    let head = subst (λ z. head_is is_sign z ≡ false) (append-nil ds) (digits_head ds a n []) in
    let is = one_of-either e 101 69 k in
    ap (λ b. all_used (with_e b (e ∷ rest))) is
    ∙ ap (λ b. all_used (digits_of (next_if is_sign (if b then rest else e ∷ rest)))) is
    ∙ ap (λ z. all_used (digits_of z)) (ap (next_if is_sign) r ∙ Sign-take ds g head)
    ∙ digits_used ds a n

pointed_head : (left rest : Bytes) → AllDigits left → head_is is_sign (left ++ 46 ∷ rest) ≡ false
pointed_head [] rest a = refl
pointed_head (d ∷ left) rest (low, high, a) = ground (arith, low, high)

-- What `mantissa_of` finds in front of `e`.
abbrev Finds : Bytes → Bytes → Type 0
Finds e xs = (c : ℕ) × (mantissa_of xs ≡ (c, e)) × (0 < c) × (head_is is_sign xs ≡ false)

Mantissa-take :
    {m : Bytes} (e : Bytes)
    → Mantissa m
    → head_is is_digit e ≡ false
    → head_is is_point e ≡ false
    → Finds e (m ++ e)
Mantissa-take e (whole {ds = ds} a n) h p =
    let (count, behind) = digits_take ds e a h in
    (length ds, rw (behind, p, count) refl, n, digits_head ds a n e)
Mantissa-take e (pointed left right q a b n) h p =
    let rest = 46 ∷ (right ++ e) in
    let (count, behind) = digits_take left rest a refl in
    let (more, last) = digits_take right e b h in
    let same = ap (λ z. z ++ e) q ∙ append_assoc left (46 ∷ right) e in
    subst (Finds e) (sym same) (
      length left + length right,
      rw (behind, count, more, last) refl,
      n,
      pointed_head left (right ++ e) a,
    )

pub Number-accepts : (xs : Bytes) → Number xs → accepts xs ≡ true
Number-accepts xs v =
    let (digit, point) = Exponent-head v.has_exponent in
    let (c, e, n, head) = Mantissa-take v.exponent v.has_digits digit point in
    let behind =
      ap (next_if is_sign) v.split ∙ Sign-take (v.digits ++ v.exponent) v.is_signed head in
    let found = ap mantissa_of behind ∙ e in
    let some_digits : (c == 0) ≡ false = ground (arith, n) in
    ap (λ m. if m.0 == 0 then false else all_used (exponent_of m.1)) found
    ∙ ap (λ b. if b then false else all_used (exponent_of v.exponent)) some_digits
    ∙ Exponent-take v.has_exponent

-- On every string kod_f64_valid returns 1 if its bytes are a number of the grammar, and 0 if they
-- are not: an optional sign, digits with an optional point and one digit at least, and an optional
-- exponent, which is e or E, an optional sign and one digit at least.
pub kod_f64_valid_lem :
    (xs : Bytes)
    → ((kod_f64_valid (str_of xs) ≡ ok 1) × Number xs)
      ⊎ ((kod_f64_valid (str_of xs) ≡ ok 0) × (Number xs → ⊥))
kod_f64_valid_lem xs = elim (Bool-cases (accepts xs)) [
  | inl a ↦ inl (kod_f64_valid-accepts xs ∙ ap (λ b. ok (flag b)) a, accepts-Number xs a)
  | inr a ↦ inr (
    kod_f64_valid-accepts xs ∙ ap (λ b. ok (flag b)) a,
    λ v. let it_is = Number-accepts xs v in cc,
  )
]
