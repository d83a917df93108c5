-- ===== src/Files/Exact.antt =====
-- `read_stdin_exact`.
use kodlang.Base.{
  Bool-cases, ℕ, zero, suc, ◌+◌, ◌-◌, ◌<◌, ◌≤◌, ◌≡◌, ◌⊎◌, inl, inr, refl, sym, ap, ◌∙◌, Bytes, [],
  ◌∷◌, ◌++◌, true, false, Run, ok, ◌>>=◌, fresh, length-fresh, memcpy, memcpy-append, store,
  store_lem, set-append, length, length-append, length-take, length-drop, take, drop, take-append,
  drop-append, drop-append_le, take_all, drop_all, append_assoc, append-nil, ltb, ltb→lt, ◌==◌,
  if◌then◌else◌, arith,
}
use kodlang.Str.{KodStr}
use kodlang.Str.Repr.{Fits, kod_str_new_lem}
use kodlang.Files.{Stdio, exact_loop, read_stdin_exact}
use kodlang.Files.Streams.{View, ReadsPieces}

fill_step :
    (done old xs : Bytes) (got : ℕ)
    → got ≡ length done
    → length xs ≤ length old
    → memcpy (done ++ (old ++ 0 ∷ [])) got xs 0 (length xs)
      ≡ ok ((done ++ xs) ++ (drop (length xs) old ++ 0 ∷ []))
fill_step done old xs got e h =
    memcpy-append done (old ++ 0 ∷ []) xs got (length xs) e refl
      (omega (arith, length-append old (0 ∷ [])))
    ∙ ap (λ r. ok (done ++ (xs ++ r))) (drop-append_le (length xs) old (0 ∷ []) h)
    ∙ ap ok (sym (append_assoc done xs (drop (length xs) old ++ 0 ∷ [])))

nothing_behind : (xs ys zs : Bytes) → zs ≡ xs ++ ys → zs ≡ [] → ys ≡ []
nothing_behind [] ys zs e f = sym e ∙ f
nothing_behind (x ∷ xs) ys zs e f = absurd (omega (arith, ap length (sym e ∙ f)))

-- `n` bytes, or all that there are, and the rest.
taken :
    (n : ℕ) (all rest text : Bytes)
    → text ≡ all ++ rest
    → length all ≤ n
    → (length all ≡ n) ⊎ (rest ≡ [])
    → (take n text ≡ all) × (drop n text ≡ rest)
taken n all rest text e h (inl full) = (
  ap (take n) e ∙ take-append n all rest (sym full),
  ap (drop n) e ∙ drop-append n all rest (sym full),
)
taken n all rest text e h (inr empty) =
    let same = e ∙ ap (λ r. all ++ r) empty ∙ append-nil all in
    (ap (take n) same ∙ take_all n all h, ap (drop n) same ∙ drop_all n all h ∙ sym empty)

module _ {Z : Type 0} where
  -- What follows the loop.
  abbrev After : ℕ → Bytes → ℕ → Z → Run (KodStr × Z)
  After n buf got rest =
      let short : Run (KodStr × Z) =
        store buf got 0 >>= λ ended. ok (record { buf = ended; len = got }, rest) in
      if got == n then ok (record { buf = buf; len = n }, rest) else short

  ended_lem :
      (n : ℕ) (all behind : Bytes) (rest : Z)
      → length all + length behind ≡ n
      → (tail : Bytes) × (After n (all ++ (behind ++ 0 ∷ [])) (length all) rest
          ≡ ok (record { buf = all ++ 0 ∷ tail; len = length all }, rest))
        × (length all ≡ n → tail ≡ [])
  ended_lem n all [] rest f =
      let full : (length all == n) ≡ true = ground (arith, f) in
      (
        [],
        rw full
            (ap (λ k. ok (record { buf = all ++ 0 ∷ []; len = k }, rest)) {x = n} (omega arith)),
        λ h. refl,
      )
  ended_lem n all (b ∷ bs) rest f =
      let short : (length all == n) ≡ false = ground (arith, f) in
      let room : length all < length (all ++ b ∷ (bs ++ 0 ∷ [])) =
        omega (arith, length-append all (b ∷ (bs ++ 0 ∷ []))) in
      (
        bs ++ 0 ∷ [],
        rw
            (
              short,
              store_lem (all ++ b ∷ (bs ++ 0 ∷ [])) (length all) 0 room,
              set-append all b 0 (bs ++ 0 ∷ []) (length all) refl,
            )
            refl,
        λ h. absurd (omega arith),
      )

module _ {Z : Type 0} (v : View Z) where
  -- The buffer starts with the bytes read, `n` of them or all that there are, and the rest of the
  -- text is left.
  abbrev Filled : ℕ → Bytes → Run (Bytes × (ℕ × Z)) → Type 0
  Filled n text r =
      (all : Bytes) × (old : Bytes) × (z : Z) × (r ≡ ok (all ++ (old ++ 0 ∷ []), (length all, z)))
      × (length all + length old ≡ n)
      × (text ≡ all ++ v.text z)
      × ((length all ≡ n) ⊎ (v.text z ≡ []))

module _ {Z : Type 0} (stdio : Stdio Z) (v : View Z) (junk : ℕ → ℕ) (p : ReadsPieces v stdio) where
  exact_loop_lem :
      (fuel n : ℕ) (done old text : Bytes) (got : ℕ) (z : Z)
      → length old < fuel
      → got ≡ length done
      → length done + length old ≡ n
      → text ≡ done ++ v.text z
      → Filled v n text (exact_loop stdio fuel n (done ++ (old ++ 0 ∷ [])) got z)
  unfolding exact_loop
  exact_loop_lem zero n done old text got z h e f t = absurd (omega arith)
  exact_loop_lem (suc fuel) n done old text got z h e f t = elim (Bool-cases (ltb got n)) [
    | inr full ↦
        let none_left : length done ≡ n = ground (arith, full, e, f) in
        (
          done,
          old,
          z,
          rw full (ap (λ k. ok (done ++ (old ++ 0 ∷ []), (k, z))) e),
          f,
          t,
          inl none_left,
        )
    | inl more ↦
        let lt = ltb→lt got n more in
        let r = stdio.fread (n - got) z in
        let (few, split, ended) = p.step (n - got) z (omega arith) in
        elim (Bool-cases (length r.0 == 0)) [
          | inl none_read ↦
              let z_empty = ended (ground (arith, none_read)) in
              let rest_empty = nothing_behind r.0 (v.text r.1) (v.text z) split z_empty in
              (
                done,
                old,
                r.1,
                rw (more, none_read) (ap (λ k. ok (done ++ (old ++ 0 ∷ []), (k, r.1))) e),
                f,
                t ∙ ap (λ s. done ++ s) (z_empty ∙ sym rest_empty),
                inr rest_empty,
              )
          | inr some_read ↦
              let some_bytes : 0 < length r.0 = ground (arith, some_read) in
              let size = length-append done r.0 in
              let left = length-drop (length r.0) old in
              let (all, behind, rest, is, sizes, whole, last) =
                exact_loop_lem fuel n (done ++ r.0) (drop (length r.0) old) text (got + length r.0)
                  r.1 (omega (arith, left)) (omega (arith, size)) (omega (arith, size, left))
                  (t ∙ ap (λ s. done ++ s) split ∙ sym (append_assoc done r.0 (v.text r.1))) in
              (
                all,
                behind,
                rest,
                rw (more, some_read, fill_step done old r.0 got e (omega arith)) is,
                sizes,
                whole,
                last,
              )
        ]
  ]

  -- However many of the bytes asked for each read of stdin gives, if it gives none only at the end:
  -- read_stdin_exact returns the first n bytes of stdin, or all that there are, terminated by a
  -- NUL, and leaves exactly the rest. With n bytes or more the string has no room behind its NUL.
  -- The n bytes with their header and terminator fit an int64_t.
  pub read_stdin_exact_lem :
      (n : ℕ) (z : Z)
      → Fits n
      → (tail : Bytes) × (rest : Z) × (read_stdin_exact stdio junk n z
          ≡ ok (
            record { buf = take n (v.text z) ++ 0 ∷ tail; len = length (take n (v.text z)) },
            rest,
          ))
        × (n ≤ length (v.text z) → tail ≡ [])
        × (v.text rest ≡ drop n (v.text z))
  unfolding read_stdin_exact
  read_stdin_exact_lem n z fits =
      let size = length-fresh junk n in
      let (all, behind, rest, looped, sizes, whole, last) =
        exact_loop_lem (n + 1) n [] (fresh junk n) (v.text z) 0 z (omega (arith, size)) refl
          (omega (arith, size)) refl in
      let (tail, ended, full) = ended_lem n all behind rest sizes in
      let (first, left) = taken n all (v.text rest) (v.text z) whole (omega (arith, sizes)) last in
      (
        tail,
        rest,
        rw (kod_str_new_lem junk n fits, looped, first) ended,
        λ h. full (omega (arith, ap length first, length-take n (v.text z), h)),
        sym left,
      )
