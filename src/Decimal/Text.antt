-- ===== src/Decimal/Text.antt =====
-- The text of a double.
use kodlang.Base.{
  ℕ, zero, suc, ◌+◌, ◌-◌, ◌<◌, ◌≤◌, ◌≡◌, ◌≢◌, ◌⊎◌, inl, inr, refl, sym, ap, ◌∙◌, Bytes, [], ◌∷◌,
  ◌++◌, Bool, true, false, some, ok, take, take_all, replicate, get_elem?, length, length-take,
  length-append, append-nil, ◌==◌, arith,
}
use kodlang.Base.Int.{ℤ, pos_part, neg_part}
use kodlang.Str.Repr.{str_of}
use kodlang.Str.{kod_str_from_bytes}
use kodlang.Str.Ops.{kod_str_from_bytes_lem}
use kodlang.Decimal.{Double, shortest, parts, signed_parts, kod_f64_to_str, push}
use kodlang.Decimal.Layout.{Prints, Shows}
use kodlang.Decimal.Scientific.{lay_out_lem}
use kodlang.Decimal.Loops.{strip_zeros_lem}
use kodlang.Decimal.Shortest.{
  sign_text, with_point, IsScientific, Documented, IsShortest, shortest_lem, scan_digits_lem,
}
use kodlang.Float.Grammar.{AllDigits}

-- `kept` are the digits `ds` without the zeros at the end, but for the first digit.
pub record IsStripped (kept ds : Bytes) : Type 0 where
  pub zeros : ℕ
  pub split : ds ≡ kept ++ replicate zeros 48
  pub some_digit : 0 < length kept
  pub last : (length kept ≡ 1) ⊎ ((c : ℕ) × (get_elem? kept (length kept - 1) ≡ some c) × (c ≢ 48))

-- A text of the number with the digits `ds` and the exponent `exp`.
pub record IsText (print : ℕ → Bytes) (negative : Bool) (ds : Bytes) (exp : ℤ) (text : Bytes)
    : Type 0 where
  pub kept : Bytes
  pub number : Bytes
  pub split : text ≡ sign_text negative ++ number
  pub stripped : IsStripped kept ds
  pub shows : Shows print kept exp number

take_get : (n i : ℕ) (xs : Bytes) → i < n → get_elem? (take n xs) i ≡ get_elem? xs i
take_get zero i xs h = absurd (omega arith)
take_get (suc n) i [] h = refl
take_get (suc n) zero (x ∷ xs) h = refl
take_get (suc n) (suc i) (x ∷ xs) h = take_get n i xs (omega arith)

length-sign_text : (negative : Bool) → length (sign_text negative) ≤ 1
length-sign_text true = omega arith
length-sign_text false = omega arith

with_point-head : (d : ℕ) (ds : Bytes) → (rest : Bytes) × (with_point (d ∷ ds) ≡ d ∷ rest)
with_point-head d [] = ([], refl)
with_point-head d (c ∷ ds) = (46 ∷ c ∷ ds, refl)

module _ {print : ℕ → Bytes} (prints : Prints print) (atoi : Bytes → ℤ) where
  -- What is written behind the sign.
  parts_lem :
      (ds power out : Bytes) (exp : ℤ)
      → AllDigits ds
      → 0 < length ds
      → length ds ≤ 17
      → atoi power ≡ exp
      → pos_part exp + neg_part exp < 1000
      → length out ≤ 1
      → (kept : Bytes) × (number : Bytes) × (parts print atoi (with_point ds ++ 101 ∷ power) out
          ≡ ok (out ++ number))
        × IsStripped kept ds
        × Shows print kept exp number
  unfolding parts
  parts_lem ds power out exp a n few e small h =
      let (m, stripped, some_digit, most, split, last) =
        strip_zeros_lem ds (length ds) n (omega arith) in
      let size : length (take m ds) ≡ m = omega (arith, length-take m ds) in
      let (number, laid, shows) =
        lay_out_lem prints exp m ds out some_digit most (omega arith) small h in
      (
        take m ds,
        number,
        rw (scan_digits_lem ds power a (omega arith), stripped, e) laid,
        record {
          zeros = length ds - m;
          split = sym (take_all (length ds) ds (omega arith)) ∙ split;
          some_digit = omega arith;
          last = elim last [
            | inl one ↦ inl (size ∙ one)
            | inr (c, found, other) ↦ inr (
              c,
              ap (get_elem? (take m ds)) {y = m - 1} (omega arith)
                  ∙ take_get m (m - 1) ds (omega arith)
                  ∙ found,
              other,
            )
          ];
        },
        shows,
      )

  -- The sign is written where there is one.
  signed_parts_lem :
      (negative : Bool) (ds text : Bytes) (exp : ℤ)
      → 0 < length ds
      → length ds ≤ 17
      → IsScientific atoi negative ds exp text
      → (out : Bytes) × (signed_parts print atoi text ≡ ok out) × IsText print negative ds exp out
  unfolding signed_parts push
  signed_parts_lem negative [] text exp n few is = absurd (omega arith)
  signed_parts_lem true (d ∷ ds) text exp n few is =
      let (kept, number, written, stripped, shows) =
        parts_lem (d ∷ ds) is.power (45 ∷ []) exp is.digits n few is.exponent is.small
          (omega arith) in
      (
        45 ∷ number,
        ap (signed_parts print atoi) is.split ∙ written,
        record { kept = kept; number = number; split = refl; stripped = stripped; shows = shows },
      )
  signed_parts_lem false (d ∷ ds) text exp n few is =
      let (kept, number, written, stripped, shows) =
        parts_lem (d ∷ ds) is.power [] exp is.digits n few is.exponent is.small (omega arith) in
      let (rest, head) = with_point-head d ds in
      let (low, high, a) = is.digits in
      let no_sign : (d == 45) ≡ false = ground (arith, low) in
      let first = ap (λ w. w ++ 101 ∷ is.power) head in
      (
        number,
        ap (signed_parts print atoi) (is.split ∙ first)
            ∙ rw no_sign (ap (λ w. parts print atoi w []) (sym first) ∙ written),
        record { kept = kept; number = number; split = refl; stripped = stripped; shows = shows },
      )

  short :
      {negative : Bool} {ds : Bytes} {exp : ℤ} {text : Bytes}
      → IsText print negative ds exp text
      → length text ≤ 63
  short {negative} t =
      let sizes = ap length t.split ∙ length-append (sign_text negative) t.number in
      omega (arith, sizes, length-sign_text negative, t.shows.short)

  finite_step :
      (junk : ℕ → ℕ) (d : Double)
      → d.is_nan ≡ false
      → d.is_inf ≡ false
      → d.is_zero ≡ false
      → (sci text : Bytes) → shortest 17 1 d [] ≡ sci
      → signed_parts print atoi sci ≡ ok text
      → length text ≤ 63
      → kod_f64_to_str print junk atoi d ≡ ok (str_of text)
  unfolding kod_f64_to_str
  finite_step junk d nan inf nonzero sci text found written h =
      rw (found, written, nan, inf, nonzero)
        (ap (λ b. kod_str_from_bytes junk b (length text)) (sym (append-nil text))
          ∙ kod_str_from_bytes_lem junk text [] (omega arith))

  -- For a finite double that is not zero, with what the C library documents of the texts and 17
  -- digits that read back: kod_f64_to_str writes no byte outside its arrays and takes the digits of
  -- the shortest of these texts that reads back as the double. The result is a minus sign if there
  -- was one, and then a text with a point or an exponent, of fewer than 63 bytes, that shows these
  -- digits without the zeros at their end (the first digit is kept), at the place that the exponent
  -- says.
  pub kod_f64_to_str_lem :
      (junk : ℕ → ℕ) (d : Double)
      → d.is_nan ≡ false
      → d.is_inf ≡ false
      → d.is_zero ≡ false
      → Documented atoi d
      → (prec : ℕ) × (ds : Bytes) × (exp : ℤ) × (text : Bytes) × IsShortest d prec
        × (length ds ≡ prec)
        × IsScientific atoi d.below_zero ds exp (d.sci (prec - 1))
        × IsText print d.below_zero ds exp text
        × (kod_f64_to_str print junk atoi d ≡ ok (str_of text))
  kod_f64_to_str_lem junk d nan inf nonzero k =
      let (prec, found, is) = shortest_lem d k.enough in
      let (ds, exp, size, scientific) = k.scientific prec is.some_digit is.few in
      let (text, written, shown) =
        signed_parts_lem d.below_zero ds (d.sci (prec - 1)) exp (omega (arith, is.some_digit))
          (omega (arith, is.few)) scientific in
      (
        prec,
        ds,
        exp,
        text,
        is,
        size,
        scientific,
        shown,
        finite_step junk d nan inf nonzero (d.sci (prec - 1)) text found written (short shown),
      )
