-- ===== src/Decimal/Loops.antt =====
-- The loops of `kod_f64_to_str`.
use kodlang.Base.{
  Bool-cases, ℕ, zero, suc, ◌+◌, ◌-◌, ◌<◌, ◌≤◌, ◌≡◌, ◌≢◌, ◌⊎◌, inl, inr, refl, sym, ap, ap₂, ◌∙◌,
  Bytes, [], ◌∷◌, ◌++◌, none, some, ok, load_lem, get_elem?, length, length-append, take, drop,
  replicate, append_assoc, append-nil, lt→ltb, le→ltb, ◌==◌, arith,
}
use kodlang.Decimal.{push, strip_zeros, put_digits, put_padded, put_zeros}

pub push_lem :
    (size : ℕ) (out : Bytes) (c : ℕ) → length out < size → push size out c ≡ ok (out ++ c ∷ [])
unfolding push
push_lem size out c h = rw (lt→ltb (length out) size h) refl

-- The element at `i`, and the rest behind it.
drop_step :
    (i : ℕ) (xs : Bytes)
    → i < length xs
    → (c : ℕ) × (get_elem? xs i ≡ some c) × (drop i xs ≡ c ∷ drop (i + 1) xs)
drop_step i [] h = absurd (omega arith)
drop_step zero (x ∷ xs) h = (x, refl, refl)
drop_step (suc i) (x ∷ xs) h =
    let (c, e, f) = drop_step i xs (omega arith) in
    (c, e, f ∙ ap (λ n. c ∷ drop n (x ∷ xs)) {x = suc (i + 1)} (omega arith))

pub put_digits_lem :
    (rounds i : ℕ) (digits out : Bytes)
    → i + rounds ≤ length digits
    → length out + rounds ≤ 64
    → put_digits rounds i digits out ≡ ok (out ++ take rounds (drop i digits))
unfolding put_digits
put_digits_lem zero i digits out h k = ap ok (sym (append-nil out))
put_digits_lem (suc n) i digits out h k =
    let (c, e, f) = drop_step i digits (omega arith) in
    rw
      (
        load_lem digits i e,
        push_lem 64 out c (omega arith),
        put_digits_lem n (i + 1) digits (out ++ c ∷ []) (omega arith)
            (omega (arith, length-append out (c ∷ []))),
        f,
      )
      (ap ok (append_assoc out (c ∷ []) (take n (drop (i + 1) digits))))

pub put_zeros_lem :
    (rounds : ℕ) (out : Bytes)
    → length out + rounds ≤ 64
    → put_zeros rounds out ≡ ok (out ++ replicate rounds 48)
unfolding put_zeros
put_zeros_lem zero out h = ap ok (sym (append-nil out))
put_zeros_lem (suc n) out h =
    rw
      (
        push_lem 64 out 48 (omega arith),
        put_zeros_lem n (out ++ 48 ∷ []) (omega (arith, length-append out (48 ∷ []))),
      )
      (ap ok (append_assoc out (48 ∷ []) (replicate n 48)))

padded_zeros :
    (rounds i nd : ℕ) (digits out : Bytes)
    → nd ≤ i
    → length out + rounds ≤ 64
    → put_padded rounds i nd digits out ≡ ok (out ++ replicate rounds 48)
unfolding put_padded
padded_zeros zero i nd digits out h k = ap ok (sym (append-nil out))
padded_zeros (suc n) i nd digits out h k =
    rw
      (
        le→ltb i nd h,
        push_lem 64 out 48 (omega arith),
        padded_zeros n (i + 1) nd digits (out ++ 48 ∷ []) (omega arith)
            (omega (arith, length-append out (48 ∷ []))),
      )
      (ap ok (append_assoc out (48 ∷ []) (replicate n 48)))

-- `a` digits from `i` on, and `b` zeros behind the last digit.
pub put_padded_lem :
    (rounds a b i nd : ℕ) (digits out : Bytes)
    → rounds ≡ a + b
    → i + a ≤ nd
    → (0 < b → i + a ≡ nd)
    → nd ≤ length digits
    → length out + rounds ≤ 64
    → put_padded rounds i nd digits out ≡ ok (out ++ (take a (drop i digits) ++ replicate b 48))
unfolding put_padded
put_padded_lem zero zero zero i nd digits out e f g h k = ap ok (sym (append-nil out))
put_padded_lem zero zero (suc b) i nd digits out e f g h k = absurd (omega arith)
put_padded_lem zero (suc a) b i nd digits out e f g h k = absurd (omega arith)
put_padded_lem (suc n) zero b i nd digits out e f g h k =
    padded_zeros (suc n) i nd digits out (omega (arith, g (omega arith))) k
    ∙ ap (λ m. ok (out ++ replicate m 48)) {x = suc n} {y = b} (omega arith)
put_padded_lem (suc n) (suc a) b i nd digits out e f g h k =
    let (c, found, rest) = drop_step i digits (omega arith) in
    rw
      (
        lt→ltb i nd (omega arith),
        load_lem digits i found,
        push_lem 64 out c (omega arith),
        put_padded_lem n a b (i + 1) nd digits (out ++ c ∷ []) (omega arith) (omega arith)
            (λ s. omega (arith, g s)) h (omega (arith, length-append out (c ∷ []))),
        rest,
      )
      (ap ok (append_assoc out (c ∷ []) (take a (drop (i + 1) digits) ++ replicate b 48)))

take_snoc :
    (n : ℕ) (xs : Bytes) {c : ℕ} → get_elem? xs n ≡ some c → take (suc n) xs ≡ take n xs ++ c ∷ []
take_snoc n [] h = cc
take_snoc zero (x ∷ xs) h = ap (λ o. elim o as (λ _. Bytes) [ none ↦ [] | some v ↦ v ∷ [] ]) h
take_snoc (suc n) (x ∷ xs) h = ap (λ r. x ∷ r) (take_snoc n xs h)

pub replicate_snoc : (n : ℕ) (c : ℕ) → replicate n c ++ c ∷ [] ≡ replicate (suc n) c
replicate_snoc zero c = refl
replicate_snoc (suc n) c = ap (λ r. c ∷ r) (replicate_snoc n c)

-- What is stripped are zeros, and a digit is left.
pub strip_zeros_lem :
    (digits : Bytes) (n : ℕ)
    → 0 < n
    → n ≤ length digits
    → (m : ℕ) × (strip_zeros digits n ≡ ok m)
      × (0 < m)
      × (m ≤ n)
      × (take n digits ≡ take m digits ++ replicate (n - m) 48)
      × ((m ≡ 1) ⊎ ((c : ℕ) × (get_elem? digits (m - 1) ≡ some c) × (c ≢ 48)))
unfolding strip_zeros
strip_zeros_lem digits zero h k = absurd (omega arith)
strip_zeros_lem digits (suc zero) h k =
    (1, refl, omega arith, omega arith, sym (append-nil (take 1 digits)), inl refl)
strip_zeros_lem digits (suc (suc n)) h k =
    let (c, found, rest) = drop_step (suc n) digits (omega arith) in
    let all = take_snoc (suc n) digits found in
    elim (Bool-cases (c == 48)) [
      | inl z ↦
          let (m, e, p, q, t, last) = strip_zeros_lem digits (suc n) (omega arith) (omega arith) in
          let same : c ≡ 48 = ground (arith, z) in
          (
            m,
            rw (load_lem digits (suc n) found, z) e,
            p,
            omega (arith, q),
            all
                ∙ ap₂ (λ a b. a ++ b ∷ []) t same
                ∙ append_assoc (take m digits) (replicate (suc n - m) 48) (48 ∷ [])
                ∙ ap (λ b. take m digits ++ b) (replicate_snoc (suc n - m) 48)
                ∙ ap (λ k. take m digits ++ replicate k 48) {x = suc (suc n - m)}
                    (omega (arith, q)),
            last,
          )
      | inr z ↦ (
        suc (suc n),
        rw (load_lem digits (suc n) found, z) refl,
        omega arith,
        omega arith,
        sym (append-nil (take (suc (suc n)) digits))
            ∙ ap (λ k. take (suc (suc n)) digits ++ replicate k 48) {x = 0} (omega arith),
        inr (c, ap (λ i. get_elem? digits i) {y = suc n} (omega arith) ∙ found, ground (arith, z)),
      )
    ]
