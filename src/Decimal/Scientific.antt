-- ===== src/Decimal/Scientific.antt =====
-- The form with an exponent, and the choice of a form.
use kodlang.Base.{
  Bool-cases, ℕ, zero, suc, ◌+◌, ◌-◌, ◌<◌, ◌≤◌, ◌≡◌, inl, inr, refl, sym, ap, ◌∙◌, Bytes, [], ◌∷◌,
  ◌++◌, ok, load_lem, length, length-append, length-take, take, append_assoc, append-nil, ltb,
  lt→ltb, ltb→lt, arith,
}
use kodlang.Base.Int.{ℤ, pos, negsuc, pos_part, neg_part}
use kodlang.Decimal.{put_text, put_power, put_scientific, lay_out}
use kodlang.Decimal.Loops.{push_lem, put_digits_lem}
use kodlang.Decimal.Layout.{Prints, Tail, up, down, Lays, put_large_lem, put_small_lem}

module _ {print : ℕ → Bytes} (prints : Prints print) where
  put_power_lem :
      (exp : ℤ) (out : Bytes)
      → pos_part exp + neg_part exp < 1000
      → length out < 50
      → (tail : Bytes) × (put_power print exp out ≡ ok (out ++ tail))
        × Tail print tail exp
        × (0 < length tail)
        × (length tail ≤ 5)
  unfolding put_power put_text
  put_power_lem (pos n) out h k =
      let room = prints.few n (omega arith) in
      (
        101 ∷ 43 ∷ print n,
        rw (lt→ltb (length out + length (101 ∷ 43 ∷ print n)) 64 (omega arith)) refl,
        up n (omega arith),
        omega arith,
        omega arith,
      )
  put_power_lem (negsuc n) out h k =
      let room = prints.few (suc n) (omega arith) in
      (
        101 ∷ 45 ∷ print (suc n),
        rw (lt→ltb (length out + length (101 ∷ 45 ∷ print (suc n))) 64 (omega arith)) refl,
        down n (omega arith),
        omega arith,
        omega arith,
      )

  put_scientific_lem :
      (exp : ℤ) (nd d : ℕ) (ds out : Bytes)
      → 0 < nd
      → nd ≤ suc (length ds)
      → nd ≤ 17
      → pos_part exp + neg_part exp < 1000
      → length out ≤ 1
      → Lays print (d ∷ ds) nd exp out (put_scientific print exp nd (d ∷ ds) out)
  unfolding put_scientific
  put_scientific_lem exp zero d ds out one all few small h = absurd (omega arith)
  put_scientific_lem exp (suc zero) d ds out one all few small h =
      let size : length (out ++ d ∷ []) ≡ length out + 1 = length-append out (d ∷ []) in
      let (tail, e, is, some_tail, few_tail) =
        put_power_lem exp (out ++ d ∷ []) small (omega arith) in
      (
        d ∷ tail,
        rw (load_lem (d ∷ ds) 0 refl, push_lem 64 out d (omega arith), e)
            (ap ok (append_assoc out (d ∷ []) tail)),
        record {
          left = d ∷ [];
          right = [];
          behind = [];
          tail = tail;
          before = 0;
          after = 0;
          power = exp;
          split = refl;
          some_left = omega arith;
          pointed = inr (refl, refl, some_tail);
          same_digits = refl;
          is_tail = is;
          short = omega arith;
          scale = omega arith;
        },
      )
  put_scientific_lem exp (suc (suc n)) d ds out one all few small h =
      let m = suc (suc n) - 1 in
      let right : Bytes = take m ds in
      let room : length right ≤ suc n = omega (arith, length-take m ds) in
      let size : length (out ++ d ∷ []) ≡ length out + 1 = length-append out (d ∷ []) in
      let more : length ((out ++ d ∷ []) ++ 46 ∷ []) ≡ length out + 2 =
        omega (arith, length-append (out ++ d ∷ []) (46 ∷ [])) in
      let most : length (((out ++ d ∷ []) ++ 46 ∷ []) ++ right) ≤ length out + 2 + suc n =
        omega (arith, length-append ((out ++ d ∷ []) ++ 46 ∷ []) right) in
      let (tail, e, is, some_tail, few_tail) =
        put_power_lem exp (((out ++ d ∷ []) ++ 46 ∷ []) ++ right) small (omega arith) in
      (
        d ∷ 46 ∷ (right ++ tail),
        rw
            (
              load_lem (d ∷ ds) 0 refl,
              push_lem 64 out d (omega arith),
              lt→ltb 1 (suc (suc n)) (omega arith),
              push_lem 64 (out ++ d ∷ []) 46 (omega arith),
              put_digits_lem m 1 (d ∷ ds) ((out ++ d ∷ []) ++ 46 ∷ []) (omega arith) (omega arith),
              e,
              append_assoc ((out ++ d ∷ []) ++ 46 ∷ []) right tail,
              append_assoc (out ++ d ∷ []) (46 ∷ []) (right ++ tail),
              append_assoc out (d ∷ []) (46 ∷ (right ++ tail)),
            )
            refl,
        record {
          left = d ∷ [];
          right = right;
          behind = 46 ∷ right;
          tail = tail;
          before = 0;
          after = 0;
          power = exp;
          split = refl;
          some_left = omega arith;
          pointed = inl refl;
          same_digits =
              ap (λ k. d ∷ take k ds) {y = suc n} (omega arith)
              ∙ ap (λ r. d ∷ r) (sym (append-nil (take (suc n) ds)));
          is_tail = is;
          short = omega (arith, length-append right tail);
          scale = omega arith;
        },
      )

  -- Every exponent of a double is laid out, in the way that its size asks for.
  pub lay_out_lem :
      (exp : ℤ) (nd : ℕ) (digits out : Bytes)
      → 0 < nd
      → nd ≤ length digits
      → nd ≤ 17
      → pos_part exp + neg_part exp < 1000
      → length out ≤ 1
      → Lays print digits nd exp out (lay_out print exp nd digits out)
  unfolding lay_out
  lay_out_lem exp nd [] out one all few small h = absurd (omega arith)
  lay_out_lem (pos n) nd (d ∷ ds) out one all few small h = elim (Bool-cases (ltb n 21)) [
    | inl e ↦ rw e (put_large_lem print (d ∷ ds) nd one all few n out (ltb→lt n 21 e) h)
    | inr e ↦ rw e (put_scientific_lem (pos n) nd d ds out one all few small h)
  ]
  lay_out_lem (negsuc n) nd (d ∷ ds) out one all few small h = elim (Bool-cases (ltb n 6)) [
    | inl e ↦ rw e (put_small_lem print (d ∷ ds) nd one all few n out (ltb→lt n 6 e) h)
    | inr e ↦ rw e (put_scientific_lem (negsuc n) nd d ds out one all few small h)
  ]
