-- ===== src/Str/Order.antt =====
-- `kod_str_cmp` of stdlib/runtime.c decides the lexicographic order of the bytes.
use native.Mathlib.Decide.{dec_lt}
use kodlang.Base.{
  ℕ, suc, ◌<◌, ◌≡◌, ◌↔◌, ◌⊎◌, inl, inr, refl, sym, ap, ap₂, ◌∙◌, Bytes, [], ◌∷◌, ◌++◌, Run, ok,
  length, arith,
}
use kodlang.Base.Int.{ℤ, pos_part, neg_part, pos, negsuc, ◌<ℤ◌}
use kodlang.Str.{memcmp, kod_str_cmp}
use kodlang.Str.Repr.{str_of}

-- The order of words in a dictionary: by the first byte that differs, a prefix first.
abbrev pub LexLt : Bytes → Bytes → Type 0
LexLt [] [] = ⊥
LexLt [] (y ∷ ys) = Unit
LexLt (x ∷ xs) [] = ⊥
LexLt (x ∷ xs) (y ∷ ys) = (x < y) ⊎ (x ≡ y) × LexLt xs ys

-- What the sign of a comparison says.
pub data Decides (xs ys : Bytes) : ℤ → Type 0 where
  less : {z : ℤ} → z <ℤ pos 0 → LexLt xs ys → Decides xs ys z
  same : {z : ℤ} → z ≡ pos 0 → xs ≡ ys → Decides xs ys z
  greater : {z : ℤ} → pos 0 <ℤ z → LexLt ys xs → Decides xs ys z

Decides-cons :
    {x y : ℕ} {xs ys : Bytes} {z : ℤ} → x ≡ y → Decides xs ys z → Decides (x ∷ xs) (y ∷ ys) z
Decides-cons e (less h l) = less h (inr (e, l))
Decides-cons e (same h l) = same h (ap₂ ◌∷◌ e l)
Decides-cons e (greater h l) = greater h (inr (sym e, l))

LexLt-irrefl : (xs ys : Bytes) → xs ≡ ys → ¬ LexLt xs ys
LexLt-irrefl [] [] e h = h
LexLt-irrefl [] (y ∷ ys) e h = cc
LexLt-irrefl (x ∷ xs) [] e h = h
LexLt-irrefl (x ∷ xs) (y ∷ ys) e (inl h) = let e' : x ≡ y = cc in omega arith
LexLt-irrefl (x ∷ xs) (y ∷ ys) e (inr h) = LexLt-irrefl xs ys (cc) h.1

LexLt-asymm : (xs ys : Bytes) → LexLt xs ys → ¬ LexLt ys xs
LexLt-asymm [] [] h k = h
LexLt-asymm [] (y ∷ ys) h k = k
LexLt-asymm (x ∷ xs) [] h k = h
LexLt-asymm (x ∷ xs) (y ∷ ys) (inl h) (inl k) = omega arith
LexLt-asymm (x ∷ xs) (y ∷ ys) (inl h) (inr k) = let e = k.0 in omega arith
LexLt-asymm (x ∷ xs) (y ∷ ys) (inr h) (inl k) = let e = h.0 in omega arith
LexLt-asymm (x ∷ xs) (y ∷ ys) (inr h) (inr k) = LexLt-asymm xs ys h.1 k.1

module _ {xs ys : Bytes} where
  Decides-less : {z : ℤ} → Decides xs ys z → (z <ℤ pos 0) ↔ LexLt xs ys
  Decides-less (less h l) = ((λ _. l), (λ _. h))
  Decides-less (same h l) = (
    (λ k. absurd (omega (arith, ap pos_part h, ap neg_part h))),
    (λ k. absurd (LexLt-irrefl xs ys l k)),
  )
  Decides-less (greater h l) = ((λ k. absurd (omega arith)), (λ k. absurd (LexLt-asymm xs ys k l)))

  Decides-same : {z : ℤ} → Decides xs ys z → (z ≡ pos 0) ↔ (xs ≡ ys)
  Decides-same (less h l) = (
    (λ k. absurd (omega (arith, ap pos_part k, ap neg_part k))),
    (λ k. absurd (LexLt-irrefl xs ys k l)),
  )
  Decides-same (same h l) = ((λ _. l), (λ _. h))
  Decides-same (greater h l) = (
    (λ k. absurd (omega (arith, ap pos_part k, ap neg_part k))),
    (λ k. absurd (LexLt-irrefl ys xs (sym k) l)),
  )

  Decides-greater : {z : ℤ} → Decides xs ys z → (pos 0 <ℤ z) ↔ LexLt ys xs
  Decides-greater (less h l) = ((λ k. absurd (omega arith)), (λ k. absurd (LexLt-asymm xs ys l k)))
  Decides-greater (same h l) = (
    (λ k. absurd (omega (arith, ap pos_part h, ap neg_part h))),
    (λ k. absurd (LexLt-irrefl ys xs (sym l) k)),
  )
  Decides-greater (greater h l) = ((λ _. l), (λ _. h))

module _ (magnitude : ℕ → ℕ → ℕ) where
  -- The strings of `xs` and `ys`, with any bytes behind them.
  cmp : (xs ys r q : Bytes) → Run ℤ
  cmp xs ys r q =
      kod_str_cmp magnitude (record { buf = xs ++ r; len = length xs })
        (record { buf = ys ++ q; len = length ys })

  cmp_same : (x y : ℕ) (xs ys r q : Bytes) → x ≡ y → cmp (x ∷ xs) (y ∷ ys) r q ≡ cmp xs ys r q
  unfolding cmp kod_str_cmp memcmp
  cmp_same x y xs ys r q e = ground arith

  cmp_less :
      (x y : ℕ) (xs ys r q : Bytes)
      → x < y
      → cmp (x ∷ xs) (y ∷ ys) r q ≡ ok (negsuc (magnitude x y))
  unfolding cmp kod_str_cmp memcmp
  cmp_less x y xs ys r q e = ground arith

  cmp_greater :
      (x y : ℕ) (xs ys r q : Bytes)
      → y < x
      → cmp (x ∷ xs) (y ∷ ys) r q ≡ ok (pos (suc (magnitude x y)))
  unfolding cmp kod_str_cmp memcmp
  cmp_greater x y xs ys r q e = ground arith

  cmp_cons :
      (x y : ℕ) (xs ys r q : Bytes)
      → (z : ℤ) × (cmp xs ys r q ≡ ok z) × Decides xs ys z
      → (z : ℤ) × (cmp (x ∷ xs) (y ∷ ys) r q ≡ ok z) × Decides (x ∷ xs) (y ∷ ys) z
  cmp_cons x y xs ys r q (z, e, d) = elim (dec_lt x y) [
    | yes h ↦ (negsuc (magnitude x y), cmp_less x y xs ys r q h, less (omega arith) (inl h))
    | no h ↦ elim (dec_lt y x) [
      | yes k ↦
          (pos (suc (magnitude x y)), cmp_greater x y xs ys r q k, greater (omega arith) (inl k))
      | no k ↦ let eq : x ≡ y = omega arith in (z, cmp_same x y xs ys r q eq ∙ e, Decides-cons eq d)
    ]
  ]

  -- Every comparison comes to a number, whose sign decides the order.
  cmp_lem : (xs ys r q : Bytes) → (z : ℤ) × (cmp xs ys r q ≡ ok z) × Decides xs ys z
  unfolding cmp kod_str_cmp memcmp
  cmp_lem [] [] r q = (pos 0, refl, same refl refl)
  cmp_lem [] (y ∷ ys) r q = (negsuc (length ys), ground arith, less (omega arith) tt)
  cmp_lem (x ∷ xs) [] r q = (pos (suc (length xs)), ground arith, greater (omega arith) tt)
  cmp_lem (x ∷ xs) (y ∷ ys) r q = cmp_cons x y xs ys r q (cmp_lem xs ys r q)

  -- On two strings kod_str_cmp returns a negative number exactly when the bytes of the first come
  -- first in the lexicographic order, zero exactly when they are the same bytes, and a positive
  -- number exactly when the bytes of the second come first, whatever numbers memcmp returns.
  pub kod_str_cmp_lem :
      (xs ys : Bytes)
      → (z : ℤ) × (kod_str_cmp magnitude (str_of xs) (str_of ys) ≡ ok z)
        × ((z <ℤ pos 0) ↔ LexLt xs ys)
        × ((z ≡ pos 0) ↔ (xs ≡ ys))
        × ((pos 0 <ℤ z) ↔ LexLt ys xs)
  unfolding cmp
  kod_str_cmp_lem xs ys =
      let (z, e, d) = cmp_lem xs ys (0 ∷ []) (0 ∷ []) in
      (z, e, Decides-less d, Decides-same d, Decides-greater d)
