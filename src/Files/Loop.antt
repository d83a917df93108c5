-- ===== src/Files/Loop.antt =====
-- The loop of `read_file`.
use kodlang.Base.{
  Bool-cases, ℕ, zero, suc, ◌+◌, ◌-◌, ◌*◌, ◌%◌, ◌^◌, ◌<◌, ◌≤◌, ◌≡◌, ◌⊎◌, inl, inr, refl, sym, ap,
  ap₂, ◌∙◌, Bytes, [], ◌++◌, Bool, false, none, some, Run, ok, fresh, length-fresh, memcpy,
  memcpy-append, length, length-append, length-drop, drop, drop_all, append_assoc, append-nil,
  lt→ltb, le→ltb, arith,
}
use kodlang.Files.{Stdio, Held, free, Contents, file_loop}
use kodlang.Files.Streams.{View, ReadsFull}

-- The copies at the end of a buffer that is then full, and into a bigger one.
fills :
    (done old xs : Bytes) (at : ℕ)
    → at ≡ length done
    → length xs ≡ length old
    → memcpy (done ++ old) at xs 0 (length xs) ≡ ok (done ++ xs)
fills done old xs at e h =
    memcpy-append done old xs at (length xs) e refl (omega arith)
    ∙ ap (λ r. ok (done ++ (xs ++ r))) (drop_all (length xs) old (omega arith))
    ∙ ap (λ r. ok (done ++ r)) (append-nil xs)

module _ {Z : Type 0} (stdio : Stdio Z) (v : View Z) (junk : ℕ → ℕ) (gives : ℕ → Bool)
    (p : ReadsFull v stdio) where
  -- The loop ends with the whole text in the buffer, or for want of memory of some size.
  abbrev pub Loaded : Bytes → Bool → Held → Run (Contents Z) → Type 0
  Loaded text broken w r =
      ((rest : Bytes) × (z : Z) × (r
          ≡ ok (record { buf = some (text ++ rest); len = length text; fp = z; held = w }))
        × (stdio.ferror z ≡ broken))
      ⊎ ((size : ℕ) × (n : ℕ) × (z : Z) × (gives size ≡ false)
          × (size ≤ 2 * length text)
          × (r ≡ ok (record { buf = none; len = n; fp = z; held = free w })))

  pub file_loop_lem :
      (text : Bytes) (broken : Bool) (w : Held)
      → length text < 2 ^ 62
      → (fuel : ℕ) (done old : Bytes) (size at : ℕ) (z : Z) → length (v.text z) < fuel
      → size ≡ length done + length old
      → at ≡ length done
      → 0 < length old
      → text ≡ done ++ v.text z
      → broken ≡ v.broken z
      → Loaded text broken w (file_loop stdio junk gives fuel (done ++ old) size at z w)
  unfolding file_loop
  file_loop_lem text broken w most zero done old size at z h e f o t b = absurd (omega arith)
  file_loop_lem text broken w most (suc fuel) done old size at z h e f o t b =
      let got = stdio.fread (size - at) z in
      let room : size - at ≡ length old = omega arith in
      elim (p.step (size - at) z (omega arith)) [
        | inr (short, last, told) ↦
            let fits : length got.0 ≤ length old = omega (arith, room, short) in
            let sizes = length-append done got.0 in
            let same : text ≡ done ++ got.0 = t ∙ ap (λ r. done ++ r) last in
            let len : at + length got.0 ≡ length text = omega (arith, ap length same, sizes) in
            inl (
              drop (length got.0) old,
              got.1,
              rw
                  (
                    memcpy-append done old got.0 at (length got.0) f refl fits,
                    lt→ltb (at + length got.0) size (omega (arith, short)),
                  )
                  (ap₂ (λ a k. ok (record { buf = some a; len = k; fp = got.1; held = w }))
                    (sym (append_assoc done got.0 (drop (length got.0) old))
                      ∙ ap (λ r. r ++ drop (length got.0) old) (sym same))
                    len),
              told ∙ sym b,
            )
        | inl (full, split, same_end) ↦
            let filled = done ++ got.0 in
            let sizes : length filled ≡ size = omega (arith, length-append done got.0, full) in
            let whole : text ≡ filled ++ v.text got.1 =
              t ∙ ap (λ r. done ++ r) split ∙ sym (append_assoc done got.0 (v.text got.1)) in
            let in_text : size ≤ length text =
              omega (arith, ap length whole, length-append filled (v.text got.1), sizes) in
            let doubled : size * 2 % 2 ^ 64 ≡ 2 * size = omega arith in
            let copied = fills done old got.0 at f (omega arith) in
            let now = le→ltb (at + length got.0) size (omega arith) in
            elim (Bool-cases (gives (2 * size))) [
              | inl served ↦
                  let behind = drop size (fresh junk (2 * size)) in
                  let behind_size : length behind ≡ size = omega (
                    arith,
                    length-drop size (fresh junk (2 * size)),
                    length-fresh junk (2 * size),
                  ) in
                  let moved =
                    memcpy-append [] (fresh junk (2 * size)) filled 0 size refl (sym sizes)
                      (omega (arith, length-fresh junk (2 * size))) in
                  rw (copied, now, doubled, served, moved)
                    (file_loop_lem text broken w most fuel filled behind (2 * size)
                      (at + length got.0) got.1
                      (omega (arith, ap length split, length-append got.0 (v.text got.1)))
                      (omega arith) (omega (arith, length-append done got.0)) (omega arith) whole
                      (b ∙ same_end))
              | inr refused ↦ inr (
                2 * size,
                at + length got.0,
                got.1,
                refused,
                omega arith,
                rw (copied, now, doubled, refused) refl,
              )
            ]
      ]
