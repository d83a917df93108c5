-- ===== src/Float/Grammar.antt =====
-- The grammar of decimal numbers.
use kodlang.Base.{ℕ, ◌+◌, ◌<◌, ◌≤◌, ◌≡◌, ◌⊎◌, Bytes, [], ◌∷◌, ◌++◌, length}

abbrev pub AllDigits : Bytes → Type 0
AllDigits [] = Unit
AllDigits (c ∷ cs) = (48 ≤ c) × (c ≤ 57) × AllDigits cs

pub data Sign : Bytes → Type 0 where
  unsigned : Sign []
  signed : {c : ℕ} → (c ≡ 43) ⊎ (c ≡ 45) → Sign (c ∷ [])

-- One digit at least, with an optional point anywhere.
pub data Mantissa : Bytes → Type 0 where
  whole : {ds : Bytes} → AllDigits ds → 0 < length ds → Mantissa ds
  pointed :
      {m : Bytes} (left right : Bytes)
      → m ≡ left ++ 46 ∷ right
      → AllDigits left
      → AllDigits right
      → 0 < length left + length right
      → Mantissa m

pub data Exponent : Bytes → Type 0 where
  absent : Exponent []
  power :
      {e : ℕ} {rest : Bytes} (s ds : Bytes)
      → (e ≡ 101) ⊎ (e ≡ 69)
      → rest ≡ s ++ ds
      → Sign s
      → AllDigits ds
      → 0 < length ds
      → Exponent (e ∷ rest)

pub record Number (xs : Bytes) : Type 0 where
  pub sign : Bytes
  pub digits : Bytes
  pub exponent : Bytes
  pub split : xs ≡ sign ++ (digits ++ exponent)
  pub is_signed : Sign sign
  pub has_digits : Mantissa digits
  pub has_exponent : Exponent exponent
