-- ===== src/Capture/Buffers.antt =====
-- `append_to_buf`: a buffer holds what was appended to it.
use kodlang.Base.{
  ℕ, ◌+◌, ◌^◌, ◌<◌, ◌≤◌, ◌≡◌, inl, inr, refl, ap, sym, ◌∙◌, Bytes, ◌++◌, ok, add_int64,
  add_int64_lem, fresh, length-fresh, memcpy, memcpy_lem, memcpy_at, length, length-append,
  length-drop, length-take, take, drop, take-append, take-append-drop, append_assoc, ltb,
  if◌then◌else◌, Bool-cases, ltb→lt, arith,
}
use kodlang.Capture.{Buffer, regrown, append_to_buf}
use kodlang.Growth.{grow_lem}

-- The bytes of a buffer, in front of the rest of its block, which is a byte longer than `cap`.
pub record Filled (done : Bytes) (b : Buffer) : Type 0 where
  pub room : Bytes
  pub bytes : b.bytes ≡ done ++ room
  pub len : b.len ≡ length done
  pub block : length b.bytes ≡ b.cap + 1
  pub within : b.len ≤ b.cap
  pub positive : 0 < b.cap

module _ (junk : ℕ → ℕ) where
  -- A buffer that has grown to hold `total` bytes.
  regrown_lem :
      (done : Bytes) (b : Buffer) (total : ℕ)
      → Filled done b
      → b.cap < total
      → total < 2 ^ 61
      → (b' : Buffer) × (regrown junk b total ≡ ok b') × Filled done b' × (total ≤ b'.cap)
  unfolding regrown
  regrown_lem done b total v more small =
      let (cap, e, g) = grow_lem total b.cap total v.positive (omega arith) (omega arith) in
      let size : length (fresh junk (cap + 1)) ≡ cap + 1 = length-fresh junk (cap + 1) in
      let front : b.bytes ≡ done ++ v.room = v.bytes in
      let len : b.len ≡ length done = v.len in
      let behind : Bytes = drop (0 + length done) (fresh junk (cap + 1)) in
      let bound : cap + 1 < 2 ^ 63 = omega (arith, g.tight) in
      (
        record b { bytes = done ++ behind; cap = cap },
        rw
            (
              e,
              add_int64_lem cap 1 bound,
              front,
              len,
              memcpy_lem (fresh junk (cap + 1)) 0 (done ++ v.room) 0 (length done)
                  (omega (arith, v.within, g.kept)) (omega (arith, length-append done v.room)),
            )
            (ap (λ t. ok (record { bytes = t ++ behind; len = length done; cap = cap }))
              (take-append (length done) done v.room refl)),
        record {
          room = behind;
          bytes = refl;
          len = len;
          block = omega (
            arith,
            length-append done behind,
            length-drop (0 + length done) (fresh junk (cap + 1)),
            g.kept,
            v.within,
          );
          within = omega (arith, v.within, g.kept);
          positive = omega (arith, g.enough);
        },
        g.enough,
      )

  roomy_lem :
      (done : Bytes) (b : Buffer) (total : ℕ)
      → Filled done b
      → total < 2 ^ 61
      → (b' : Buffer) × ((if ltb b.cap total then regrown junk b total else ok b) ≡ ok b')
        × Filled done b'
        × (total ≤ b'.cap)
  roomy_lem done b total v small = elim (Bool-cases (ltb b.cap total)) [
    | inl more ↦ rw more (regrown_lem done b total v (ltb→lt b.cap total more) small)
    | inr fits ↦ rw fits (b, refl, v, ground (arith, fits))
  ]

  -- `append_to_buf` of the `length xs` bytes at `src`.
  pub append_to_buf_lem :
      (done xs rest : Bytes) (b : Buffer)
      → Filled done b
      → length done + length xs < 2 ^ 61
      → (b' : Buffer) × (append_to_buf junk b (xs ++ rest) (length xs) ≡ ok b')
        × Filled (done ++ xs) b'
  unfolding append_to_buf
  append_to_buf_lem done xs rest b v small =
      let n : ℕ = length xs in
      let (b₁, e, v₁, enough) = roomy_lem done b (length done + n) v small in
      let sum : add_int64 b.len n ≡ ok (length done + n) =
        ap (λ m. add_int64 m n) v.len ∙ add_int64_lem (length done) n (omega arith) in
      let room : n ≤ length v₁.room =
        omega (arith, v₁.block, ap length v₁.bytes, length-append done v₁.room) in
      let seam : b₁.bytes ≡ done ++ (take n v₁.room ++ drop n v₁.room) =
        v₁.bytes ∙ ap (λ r. done ++ r) (sym (take-append-drop n v₁.room)) in
      let copied : memcpy b₁.bytes b₁.len (xs ++ rest) 0 n ≡ ok (done ++ (xs ++ drop n v₁.room)) =
        ap (λ t. memcpy t b₁.len (xs ++ rest) 0 n) seam
        ∙ memcpy_at done (take n v₁.room) (drop n v₁.room) (xs ++ rest) b₁.len 0 n v₁.len
            (omega (arith, length-take n v₁.room)) (omega (arith, length-append xs rest))
        ∙ ap (λ t. ok (done ++ (t ++ drop n v₁.room))) (take-append n xs rest refl) in
      (
        record b₁ { bytes = done ++ (xs ++ drop n v₁.room); len = length done + n },
        rw (sum, e, copied),
        record {
          room = drop n v₁.room;
          bytes = sym (append_assoc done xs (drop n v₁.room));
          len = sym (length-append done xs);
          block = omega (
            arith,
            length-append done (xs ++ drop n v₁.room),
            length-append xs (drop n v₁.room),
            length-drop n v₁.room,
            v₁.block,
            ap length v₁.bytes,
            length-append done v₁.room,
          );
          within = enough;
          positive = v₁.positive;
        },
      )
