-- ===== src/Float/Sound.antt =====
-- What the scan accepts is a number.
use kodlang.Base.{
  Bool-cases, ℕ, ◌<◌, ◌≡◌, ◌⊎◌, inl, inr, refl, sym, subst, ap, ap₂, ◌∙◌, Bytes, [], ◌∷◌, ◌++◌,
  none, some, Bool, true, false, length, append_assoc, append-nil, ◌||◌, ◌==◌, if◌then◌else◌, arith,
}
use kodlang.Float.{is_digit, is_sign, is_point, is_e}
use kodlang.Float.Scan.{
  head_is, next_if, digit_count, after_digits, with_point, mantissa_of, with_e, exponent_of,
  all_used, accepts,
}
use kodlang.Float.Grammar.{
  AllDigits, Sign, unsigned, signed, Mantissa, whole, pointed, Exponent, absent, power, Number,
}

digits_split :
    (xs : Bytes)
    → (ds : Bytes) × (xs ≡ ds ++ after_digits xs) × AllDigits ds × (length ds ≡ digit_count xs)
digits_split [] = ([], refl, tt, refl)
digits_split (c ∷ rest) = elim (Bool-cases (is_digit c)) [
  | inl d ↦
      let (ds, e, a, n) = digits_split rest in
      (
        c ∷ ds,
        rw d (ap (λ r. c ∷ r) e),
        (ground (arith, d), ground (arith, d), a),
        rw d (omega (arith, n)),
      )
  | inr d ↦ ([], rw d refl, tt, rw d refl)
]

either-one_of : (c a b : ℕ) → (c == a || c == b) ≡ true → (c ≡ a) ⊎ (c ≡ b)
either-one_of c a b h = elim (Bool-cases (c == a)) [
  | inl e ↦ inl (ground (arith, e))
  | inr e ↦ inr (ground (arith, e, h))
]

Sign-split : (xs : Bytes) → (s : Bytes) × (xs ≡ s ++ next_if is_sign xs) × Sign s
Sign-split [] = ([], refl, unsigned)
Sign-split (c ∷ rest) = elim (Bool-cases (is_sign c)) [
  | inl d ↦ (c ∷ [], rw d refl, signed (either-one_of c 43 45 d))
  | inr d ↦ ([], rw d refl, unsigned)
]

head_split :
    (test : ℕ → Bool) (r : Bytes)
    → head_is test r ≡ true
    → (c : ℕ) × (test c ≡ true) × (r ≡ c ∷ next_if test r)
head_split test [] h = cc
head_split test (c ∷ rest) h = (c, h, rw h refl)

point_split :
    (b : Bool) (r : Bytes)
    → head_is is_point (after_digits r) ≡ b
    → let w = with_point b (digit_count r) (after_digits r) in
      0 < w.0 → (m : Bytes) × (r ≡ m ++ w.1) × Mantissa m
point_split true r d h =
    let (left, e, a, n) = digits_split r in
    let (right, f, b, k) = digits_split (next_if is_point (after_digits r)) in
    let (c, p, q) = head_split is_point (after_digits r) d in
    let rest = after_digits (next_if is_point (after_digits r)) in
    let point : c ≡ 46 = ground (arith, p) in
    (
      left ++ 46 ∷ right,
      e
          ∙ ap (λ z. left ++ z) (q ∙ ap₂ (λ i z. i ∷ z) point f)
          ∙ sym (append_assoc left (46 ∷ right) rest),
      pointed left right refl a b (omega (arith, n, k, h)),
    )
point_split false r d h =
    let (ds, e, a, n) = digits_split r in (ds, e, whole a (omega (arith, n, h)))

Mantissa-split :
    (r : Bytes) → 0 < (mantissa_of r).0 → (m : Bytes) × (r ≡ m ++ (mantissa_of r).1) × Mantissa m
Mantissa-split r h = point_split (head_is is_point (after_digits r)) r refl h

digits_of_inv :
    (b : Bool) (x : Bytes) → all_used (if b then none else some x) ≡ true → (b ≡ false) × (x ≡ [])
digits_of_inv true x h = cc
digits_of_inv false [] h = (refl, refl)
digits_of_inv false (c ∷ x) h = cc

e_split : (b : Bool) (r : Bytes) → head_is is_e r ≡ b → all_used (with_e b r) ≡ true → Exponent r
e_split false [] d h = absent
e_split false (c ∷ r) d h = cc
e_split true r d h =
    let (c, p, q) = head_split is_e r d in
    let t = next_if is_sign (next_if is_e r) in
    let (some_digits, used) = digits_of_inv (digit_count t == 0) (after_digits t) h in
    let (s, e, sg) = Sign-split (next_if is_e r) in
    let (ds, f, a, n) = digits_split t in
    subst Exponent (sym q) (
      power s ds (either-one_of c 101 69 p)
        (e ∙ ap (λ z. s ++ z) (f ∙ ap (λ z. ds ++ z) used ∙ append-nil ds)) sg a
        (ground (arith, n, some_digits)))

Exponent-split : (r : Bytes) → all_used (exponent_of r) ≡ true → Exponent r
Exponent-split r h = e_split (head_is is_e r) r refl h

and_inv : (b y : Bool) → (if b then false else y) ≡ true → (b ≡ false) × (y ≡ true)
and_inv true y h = cc
and_inv false y h = (refl, h)

pub accepts-Number : (xs : Bytes) → accepts xs ≡ true → Number xs
accepts-Number xs h =
    let r = next_if is_sign xs in
    let m = mantissa_of r in
    let (some_digits, used) = and_inv (m.0 == 0) (all_used (exponent_of m.1)) h in
    let (s, e, sg) = Sign-split xs in
    let (ds, f, mm) = Mantissa-split r (ground (arith, some_digits)) in
    record {
      sign = s;
      digits = ds;
      exponent = m.1;
      split = e ∙ ap (λ z. s ++ z) f;
      is_signed = sg;
      has_digits = mm;
      has_exponent = Exponent-split m.1 used;
    }
