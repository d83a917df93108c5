-- ===== src/Decimal/Layout.antt =====
-- The text of digits and a decimal exponent.
use kodlang.Base.{
  Bool-cases, ℕ, suc, ◌+◌, ◌-◌, ◌<◌, ◌≤◌, ◌≡◌, ◌⊎◌, inl, inr, refl, sym, ap, ◌∙◌, Bytes, [], ◌∷◌,
  ◌++◌, Run, ok, length, length-append, length-take, length-replicate, take, drop, replicate,
  append_assoc, append-nil, ltb, ltb→lt, take_more, arith,
}
use kodlang.Base.Int.{ℤ, pos, negsuc, pos_part, neg_part}
use kodlang.Decimal.{put_large, put_small}
use kodlang.Decimal.Loops.{push_lem, put_digits_lem, put_zeros_lem, put_padded_lem, replicate_snoc}
use kodlang.Float.Grammar.{AllDigits}

-- What "%d" gives for the exponents of a double.
pub record Prints (print : ℕ → Bytes) : Type 0 where
  pub digits : (n : ℕ) → n < 1000 → AllDigits (print n)
  pub some_digit : (n : ℕ) → n < 1000 → 0 < length (print n)
  pub few : (n : ℕ) → n < 1000 → length (print n) ≤ 3

-- An exponent at the end of a text, and the power of ten that it stands for.
pub data Tail (print : ℕ → Bytes) : Bytes → ℤ → Type 0 where
  no_power : Tail print [] (pos 0)
  up : (n : ℕ) → n < 1000 → Tail print (101 ∷ 43 ∷ print n) (pos n)
  down : (n : ℕ) → suc n < 1000 → Tail print (101 ∷ 45 ∷ print (suc n)) (negsuc n)

-- `text` shows the number 0.d₁d₂… * 10 ^ (exp + 1) with the digits `ds`: these are its digits but for
-- zeros in front and behind, and the point, moved by the power, stands `exp + 1` places behind the
-- first one. There is a point or a power.
pub record Shows (print : ℕ → Bytes) (ds : Bytes) (exp : ℤ) (text : Bytes) : Type 0 where
  pub left : Bytes
  pub right : Bytes
  pub behind : Bytes
  pub tail : Bytes
  pub before : ℕ
  pub after : ℕ
  pub power : ℤ
  pub split : text ≡ left ++ (behind ++ tail)
  pub some_left : 0 < length left
  pub pointed : (behind ≡ 46 ∷ right) ⊎ ((behind ≡ []) × (right ≡ []) × (0 < length tail))
  pub same_digits : left ++ right ≡ replicate before 48 ++ (ds ++ replicate after 48)
  pub is_tail : Tail print tail power
  pub short : length text < 63
  pub scale :
      length left + pos_part power + neg_part exp ≡ before + pos_part exp + 1 + neg_part power

-- What is laid out behind a sign.
abbrev pub Lays : (ℕ → Bytes) → Bytes → ℕ → ℤ → Bytes → Run Bytes → Type 0
Lays print digits nd exp out r =
    (text : Bytes) × (r ≡ ok (out ++ text)) × Shows print (take nd digits) exp text

module _ (print : ℕ → Bytes) (digits : Bytes) (nd : ℕ) (one : 0 < nd) (all : nd ≤ length digits)
    (few : nd ≤ 17) where
  pub put_large_lem :
      (exp : ℕ) (out : Bytes)
      → exp < 21
      → length out ≤ 1
      → Lays print digits nd (pos exp) out (put_large exp nd digits out)
  unfolding put_large
  put_large_lem exp out h k = elim (Bool-cases (ltb (exp + 1) nd)) [
    | inl more ↦
        let lt = ltb→lt (exp + 1) nd more in
        let left = take (exp + 1) digits in
        let size : length left ≡ exp + 1 = omega (arith, length-take (exp + 1) digits) in
        let right = take (nd - (exp + 1)) (drop (exp + 1) digits) in
        (
          left ++ 46 ∷ right,
          rw
              (
                put_padded_lem (exp + 1) (exp + 1) 0 0 nd digits out (omega arith) (omega arith)
                    (λ s. absurd (omega arith)) all (omega arith),
                append-nil left,
                push_lem 64 (out ++ left) 46 (omega (arith, length-append out left)),
                more,
                put_digits_lem (nd - (exp + 1)) (exp + 1) digits ((out ++ left) ++ 46 ∷ [])
                    (omega arith)
                    (omega (arith, length-append (out ++ left) (46 ∷ []), length-append out left)),
                append_assoc (out ++ left) (46 ∷ []) right,
                append_assoc out left (46 ∷ right),
              )
              refl,
          record {
            left = left;
            right = right;
            behind = 46 ∷ right;
            tail = [];
            before = 0;
            after = 0;
            power = pos 0;
            split = ap (λ r. left ++ r) (sym (append-nil (46 ∷ right)));
            some_left = omega arith;
            pointed = inl refl;
            same_digits =
                take_more (nd - (exp + 1)) (exp + 1) nd digits (omega arith)
                ∙ sym (append-nil (take nd digits));
            is_tail = no_power;
            short = omega (
              arith,
              length-append left (46 ∷ right),
              length-take (nd - (exp + 1)) (drop (exp + 1) digits),
            );
            scale = omega arith;
          },
        )
    | inr last ↦
        let at_most : nd ≤ exp + 1 = ground (arith, last) in
        let left = take nd digits ++ replicate (exp + 1 - nd) 48 in
        let size : length left ≡ exp + 1 = omega (
          arith,
          length-append (take nd digits) (replicate (exp + 1 - nd) 48),
          length-take nd digits,
          length-replicate {A = ℕ} (exp + 1 - nd) 48,
        ) in
        (
          left ++ 46 ∷ 48 ∷ [],
          rw
              (
                put_padded_lem (exp + 1) nd (exp + 1 - nd) 0 nd digits out (omega arith)
                    (omega arith) (λ s. omega arith) all (omega arith),
                push_lem 64 (out ++ left) 46 (omega (arith, length-append out left)),
                last,
                push_lem 64 ((out ++ left) ++ 46 ∷ []) 48
                    (omega (arith, length-append (out ++ left) (46 ∷ []), length-append out left)),
                append_assoc (out ++ left) (46 ∷ []) (48 ∷ []),
                append_assoc out left (46 ∷ 48 ∷ []),
              )
              refl,
          record {
            left = left;
            right = 48 ∷ [];
            behind = 46 ∷ 48 ∷ [];
            tail = [];
            before = 0;
            after = exp + 2 - nd;
            power = pos 0;
            split = refl;
            some_left = omega arith;
            pointed = inl refl;
            same_digits =
                append_assoc (take nd digits) (replicate (exp + 1 - nd) 48) (48 ∷ [])
                ∙ ap (λ r. take nd digits ++ r) (replicate_snoc (exp + 1 - nd) 48)
                ∙ ap (λ k. take nd digits ++ replicate k 48) {x = suc (exp + 1 - nd)} (omega arith);
            is_tail = no_power;
            short = omega (arith, length-append left (46 ∷ 48 ∷ []));
            scale = omega arith;
          },
        )
  ]

  pub put_small_lem :
      (n : ℕ) (out : Bytes)
      → n < 6
      → length out ≤ 1
      → Lays print digits nd (negsuc n) out (put_small n nd digits out)
  unfolding put_small
  put_small_lem n out h k =
      let zeros : Bytes = replicate n 48 in
      let ds : Bytes = take nd digits in
      let size : length zeros ≡ n = length-replicate n 48 in
      (
        48 ∷ 46 ∷ (zeros ++ ds),
        rw
            (
              push_lem 64 out 48 (omega arith),
              push_lem 64 (out ++ 48 ∷ []) 46 (omega (arith, length-append out (48 ∷ []))),
              append_assoc out (48 ∷ []) (46 ∷ []),
              put_zeros_lem n (out ++ 48 ∷ 46 ∷ [])
                  (omega (arith, length-append out (48 ∷ 46 ∷ []))),
              put_digits_lem nd 0 digits ((out ++ 48 ∷ 46 ∷ []) ++ zeros) (omega arith) (
                  omega (
                    arith,
                    length-append out (48 ∷ 46 ∷ []),
                    length-append (out ++ 48 ∷ 46 ∷ []) zeros,
                  )),
              append_assoc (out ++ 48 ∷ 46 ∷ []) zeros ds,
              append_assoc out (48 ∷ 46 ∷ []) (zeros ++ ds),
            )
            refl,
        record {
          left = 48 ∷ [];
          right = zeros ++ ds;
          behind = 46 ∷ (zeros ++ ds);
          tail = [];
          before = suc n;
          after = 0;
          power = pos 0;
          split = ap (λ r. 48 ∷ 46 ∷ r) (sym (append-nil (zeros ++ ds)));
          some_left = omega arith;
          pointed = inl refl;
          same_digits = ap (λ r. 48 ∷ (zeros ++ r)) (sym (append-nil ds));
          is_tail = no_power;
          short = omega (arith, length-append zeros ds, length-take nd digits);
          scale = omega arith;
        },
      )
