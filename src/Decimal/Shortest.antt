-- ===== src/Decimal/Shortest.antt =====
-- The text that is parsed: the shortest one of "%.*e" that reads back.
use kodlang.Base.{
  Bool-cases, ◌⊎◌, inl, inr, ℕ, zero, suc, ◌+◌, ◌-◌, ◌<◌, ◌≤◌, ◌≡◌, refl, sym, ap, ◌∙◌, Bytes, [],
  ◌∷◌, ◌++◌, Bool, true, false, ok, length, length-append, append_assoc, append-nil, ◌==◌,
  if◌then◌else◌, arith,
}
use kodlang.Base.Int.{ℤ, pos_part, neg_part}
use kodlang.Decimal.{Double, shortest, scan_digits}
use kodlang.Decimal.Loops.{push_lem}
use kodlang.Float.Grammar.{AllDigits}

abbrev pub sign_text : Bool → Bytes
sign_text negative = if negative then 45 ∷ [] else []

-- Digits with a point behind the first one, where there are more.
abbrev pub with_point : Bytes → Bytes
with_point [] = []
with_point (d ∷ []) = d ∷ []
with_point (d ∷ c ∷ ds) = d ∷ 46 ∷ c ∷ ds

-- `text` is [-]d[.ddd]e[+-]XX, with the digits `ds` and an exponent that `atoi` reads.
pub record IsScientific (atoi : Bytes → ℤ) (negative : Bool) (ds : Bytes) (exp : ℤ) (text : Bytes)
    : Type 0 where
  pub power : Bytes
  pub split : text ≡ sign_text negative ++ (with_point ds ++ 101 ∷ power)
  pub digits : AllDigits ds
  pub exponent : atoi power ≡ exp
  pub small : pos_part exp + neg_part exp < 1000

-- What the C library documents of "%.*e" for a finite number that is not zero, at the precisions
-- that the loop asks for: the sign, and as many digits behind the point as it says; and what is
-- known of doubles, that 17 digits read back.
pub record Documented (atoi : Bytes → ℤ) (d : Double) : Type 0 where
  pub scientific :
      (prec : ℕ)
      → 0 < prec
      → prec ≤ 17
      → (ds : Bytes) × (exp : ℤ) × (length ds ≡ prec)
        × IsScientific atoi d.below_zero ds exp (d.sci (prec - 1))
  pub enough : d.reads_back (d.sci 16) ≡ true

-- `prec` digits read back, and no fewer digits do.
pub record IsShortest (d : Double) (prec : ℕ) : Type 0 where
  pub some_digit : 0 < prec
  pub few : prec ≤ 17
  pub reads : d.reads_back (d.sci (prec - 1)) ≡ true
  pub fewer : (p : ℕ) → 0 < p → p < prec → d.reads_back (d.sci (p - 1)) ≡ false

shortest_from :
    (d : Double)
    → d.reads_back (d.sci 16) ≡ true
    → (rounds prec : ℕ) (text : Bytes) → 0 < prec
    → 0 < rounds
    → prec + rounds ≡ 18
    → ((p : ℕ) → 0 < p → p < prec → d.reads_back (d.sci (p - 1)) ≡ false)
    → (p : ℕ) × (shortest rounds prec d text ≡ d.sci (p - 1)) × IsShortest d p
unfolding shortest
shortest_from d enough zero prec text h n e f = absurd (omega arith)
shortest_from d enough (suc zero) prec text h n e f =
    let reads = ap (λ k. d.reads_back (d.sci k)) {x = prec - 1} {y = 16} (omega arith) ∙ enough in
    (prec, rw reads refl, record { some_digit = h; few = omega arith; reads = reads; fewer = f })
shortest_from d enough (suc (suc n)) prec text h k e f =
    elim (Bool-cases (d.reads_back (d.sci (prec - 1)))) [
      | inl reads ↦ (
        prec,
        rw reads refl,
        record { some_digit = h; few = omega arith; reads = reads; fewer = f },
      )
      | inr fails ↦
          let (p, found, is) =
            shortest_from d enough (suc n) (prec + 1) (d.sci (prec - 1)) (omega arith) (omega arith)
              (omega arith)
              (λ q a b. elim (compare_lt q prec b) [
                | inl less ↦ f q a less
                | inr same ↦ ap (λ k. d.reads_back (d.sci (k - 1))) same ∙ fails
              ]) in
          (p, rw fails found, is)
    ]
  where
    compare_lt : (q m : ℕ) → q < m + 1 → (q < m) ⊎ (q ≡ m)
    compare_lt q m h = grind arith

pub shortest_lem :
    (d : Double)
    → d.reads_back (d.sci 16) ≡ true
    → (p : ℕ) × (shortest 17 1 d [] ≡ d.sci (p - 1)) × IsShortest d p
shortest_lem d enough =
    shortest_from d enough 17 1 [] (omega arith) (omega arith) refl (λ p a b. absurd (omega arith))

scan_all :
    (ds rest kept : Bytes)
    → AllDigits ds
    → length kept + length ds ≤ 24
    → scan_digits (ds ++ rest) kept ≡ scan_digits rest (kept ++ ds)
unfolding scan_digits
scan_all [] rest kept a h = ap (scan_digits rest) (sym (append-nil kept))
scan_all (d ∷ ds) rest kept (low, high, a) h =
    let not_point : (d == 46) ≡ false = ground (arith, high) in
    let not_e : (d == 101) ≡ false = ground (arith, high) in
    rw (not_e, not_point, push_lem 24 kept d (omega arith))
      (scan_all ds rest (kept ++ d ∷ []) a (omega (arith, length-append kept (d ∷ [])))
        ∙ ap (scan_digits rest) (append_assoc kept (d ∷ []) ds))

-- The scan takes all digits and leaves the exponent.
pub scan_digits_lem :
    (ds power : Bytes)
    → AllDigits ds
    → length ds ≤ 24
    → scan_digits (with_point ds ++ 101 ∷ power) [] ≡ ok (ds, 101 ∷ power)
unfolding scan_digits
scan_digits_lem [] power a h = refl
scan_digits_lem (d ∷ []) power a h = scan_all (d ∷ []) (101 ∷ power) [] a h
scan_digits_lem (d ∷ c ∷ ds) power (low, high, a) h =
    scan_all (d ∷ []) (46 ∷ (c ∷ ds) ++ 101 ∷ power) [] (low, high, tt) (omega arith)
    ∙ scan_all (c ∷ ds) (101 ∷ power) (d ∷ []) a (omega arith)
