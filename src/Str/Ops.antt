-- ===== src/Str/Ops.antt =====
-- `kod_str_from_bytes`, `kod_str_slice` and `kod_str_concat` of stdlib/kod_rt.h and
-- stdlib/runtime.c, on strings that stand for their bytes.
use kodlang.Base.{
  take-drop-append, ℕ, zero, suc, ◌+◌, ◌-◌, ◌≤◌, ◌≡◌, refl, sym, ap, ◌∙◌, Bytes, List, [], ◌∷◌,
  ◌++◌, ok, add_int64_lem, fresh, length, length-append, length-take, length-drop, length-fresh,
  memcpy_at, take, drop, take-append_le, take-append, append_assoc, take_all, drop_all,
  take-append-drop, min, arith,
}
use native.Mathlib.Decide.{dec_le}
use kodlang.Base.Int.{ℤ, pos, pos_part}
use kodlang.Str.{offset, clamp_slice, kod_str_from_bytes, kod_str_slice, kod_str_concat}
use kodlang.Str.Repr.{str_of, Fits, kod_str_new_lem, new_fill}

-- Both bounds are moved into `0 .. len`, and a reversed pair gives length 0.
pub clamp_slice_lem :
    (len : ℕ) (start end : ℤ)
    → clamp_slice len start end
      ≡ (pos (min len (pos_part start)), pos (min len (pos_part end) - min len (pos_part start)))
unfolding clamp_slice
clamp_slice_lem len start end = ground arith

-- Cutting before the second bound, then dropping up to the first.
pub take-sub-drop {ℓ} :
    {A : Type ℓ} (i j : ℕ) (xs : List A) → take (j - i) (drop i xs) ≡ drop i (take j xs)
take-sub-drop zero j xs = ap (λ k. take k xs) {y = j} (omega arith)
take-sub-drop (suc i) zero xs = ap (λ k. take k (drop (suc i) xs)) {y = 0} (omega arith)
take-sub-drop (suc i) (suc j) [] = take_all (suc j - suc i) [] (omega arith)
take-sub-drop (suc i) (suc j) (x ∷ xs) =
    ap (λ k. take k (drop i xs)) {y = j - i} (omega arith) ∙ take-sub-drop i j xs

-- A bound past the end counts as the end.
pub drop-min {ℓ} :
    {A : Type ℓ} (m i : ℕ) (xs : List A) → length xs ≤ m → drop (min m i) xs ≡ drop i xs
drop-min m i xs h = elim (dec_le m i) [
  | yes k ↦ drop_all (min m i) xs (omega arith) ∙ sym (drop_all i xs (omega arith))
  | no k ↦ ap (λ r. drop r xs) (omega arith)
]

pub take-min {ℓ} : {A : Type ℓ} (i : ℕ) (xs : List A) → take (min (length xs) i) xs ≡ take i xs
take-min i xs = elim (dec_le (length xs) i) [
  | yes h ↦
      ap (λ k. take k xs) {y = length xs} (omega arith)
      ∙ take_all (length xs) xs (omega arith)
      ∙ sym (take_all i xs h)
  | no h ↦ ap (λ k. take k xs) (omega arith)
]

-- The stretch between the clamped bounds.
pub clamped-cut {ℓ} :
    {A : Type ℓ} (xs : List A) (start end : ℤ)
    → let lo = min (length xs) (pos_part start) in
      take (min (length xs) (pos_part end) - lo) (drop lo xs)
      ≡ drop (pos_part start) (take (pos_part end) xs)
clamped-cut xs start end =
    let lo : ℕ = min (length xs) (pos_part start) in
    take-sub-drop lo (min (length xs) (pos_part end)) xs
    ∙ ap (drop lo) (take-min (pos_part end) xs)
    ∙ drop-min (length xs) (pos_part start) (take (pos_part end) xs)
        (omega (arith, length-take (pos_part end) xs))

-- Two ways to write one string.
str_of_eq :
    {b xs : Bytes} {n : ℕ}
    → b ≡ xs
    → n ≡ length xs
    → ok (record { buf = b ++ 0 ∷ []; len = n }) ≡ ok (str_of xs)
str_of_eq e h = λ i. ok (record { buf = e i ++ 0 ∷ []; len = h i })

str_of_append :
    (xs ys : Bytes)
    → ok (record { buf = xs ++ (ys ++ 0 ∷ []); len = length xs + length ys })
      ≡ ok (str_of (xs ++ ys))
str_of_append xs ys = rw (← append_assoc xs ys (0 ∷ []), length-append xs ys)

module _ (junk : ℕ → ℕ) where
  -- kod_str_from_bytes of the n bytes at p is the string of those bytes, NULs included, whatever
  -- lies behind them. The bytes with their header and terminator fit an int64_t.
  pub kod_str_from_bytes_lem :
      (xs rest : Bytes)
      → Fits (length xs)
      → kod_str_from_bytes junk (xs ++ rest) (length xs) ≡ ok (str_of xs)
  unfolding kod_str_from_bytes
  kod_str_from_bytes_lem xs rest h =
      new_fill junk (xs ++ rest) 0 (length xs) h (omega (arith, length-append xs rest))
      ∙ ap (λ b. ok (record { buf = b ++ 0 ∷ []; len = length xs }))
          (take-append_le (length xs) xs rest (omega arith) ∙ take_all (length xs) xs (omega arith))

  -- kod_str_slice gives the bytes from start up to end, where a negative bound counts as 0, a bound
  -- past the end counts as the length, and bounds in the wrong order give the empty string. The
  -- bytes of the source with their header and terminator fit an int64_t.
  pub kod_str_slice_lem :
      (xs : Bytes) (start end : ℤ)
      → Fits (length xs)
      → kod_str_slice junk (str_of xs) start end
        ≡ ok (str_of (drop (pos_part start) (take (pos_part end) xs)))
  unfolding kod_str_slice offset
  kod_str_slice_lem xs start end h =
      let lo : ℕ = min (length xs) (pos_part start) in
      let hi : ℕ = min (length xs) (pos_part end) in
      let cut = clamped-cut xs start end in
      rw clamp_slice_lem (
        new_fill junk (xs ++ 0 ∷ []) lo (hi - lo) (omega arith)
          (omega (arith, length-append xs (0 ∷ [])))
        ∙ str_of_eq (take-drop-append lo (hi - lo) xs (0 ∷ []) (omega arith) ∙ cut) (
            sym (
              ap length (sym cut)
              ∙ length-take (hi - lo) (drop lo xs)
              ∙ omega (arith, length-drop lo xs))))

  -- kod_str_concat of two strings is the string of the bytes of both, in order. The bytes with
  -- their header and terminator fit an int64_t.
  pub kod_str_concat_lem :
      (xs ys : Bytes)
      → Fits (length xs + length ys)
      → kod_str_concat junk (str_of xs) (str_of ys) ≡ ok (str_of (xs ++ ys))
  unfolding kod_str_concat
  kod_str_concat_lem xs ys h =
      let total : ℕ = length xs + length ys in
      let old : Bytes = fresh junk total in
      let size = length-fresh junk total in
      let seam : old ++ 0 ∷ [] ≡ take (length xs) old ++ (drop (length xs) old ++ 0 ∷ []) =
        ap (λ b. b ++ 0 ∷ []) (sym (take-append-drop (length xs) old))
        ∙ append_assoc (take (length xs) old) (drop (length xs) old) (0 ∷ []) in
      rw
        (
          add_int64_lem (length xs) (length ys) (omega arith),
          kod_str_new_lem junk total h,
          seam,
          memcpy_at [] (take (length xs) old) (drop (length xs) old ++ 0 ∷ []) (xs ++ 0 ∷ []) 0 0
              (length xs) refl (omega (arith, length-take (length xs) old))
              (omega (arith, length-append xs (0 ∷ []))),
          take-append (length xs) xs (0 ∷ []) refl,
          memcpy_at xs (drop (length xs) old) (0 ∷ []) (ys ++ 0 ∷ []) (length xs) 0 (length ys) refl
              (omega (arith, length-drop (length xs) old))
              (omega (arith, length-append ys (0 ∷ []))),
          take-append (length ys) ys (0 ∷ []) refl,
        )
        (str_of_append xs ys)
