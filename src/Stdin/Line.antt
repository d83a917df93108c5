-- ===== src/Stdin/Line.antt =====
-- What `read_stdin_line` returns, whatever the number of times its buffer grows.
use kodlang.Base.{
  Bool, ℕ, suc, ◌+◌, ◌*◌, ◌-◌, ◌^◌, ◌≤◌, ◌<◌, ◌≡◌, ◌≢◌, refl, ap, ap₂, ◌∙◌, sym, Bytes, [], ◌∷◌,
  ◌++◌, ok, mul_int64_lem, fresh, length-fresh, memcpy_lem, load_lem, store_lem, set-append, length,
  length-append, length-drop, length-take, take, drop, take-append, take-append_le, append_assoc,
  append-nil, get_elem?, some, lt→leb, le→leb, lt→ltb, ◌==◌, if◌then◌else◌, arith, Bool-cases, inl,
  inr, true, false,
}
use kodlang.Stdin.{Scratch, roomy, put_char, line_loop, strip_cr, read_stdin_line}
use kodlang.Str.Repr.{str_of, kod_str_new_lem, fill_lem}

-- The bytes read so far in front of a rest of the buffer.
abbrev pub scratch : Bytes → Bytes → Scratch
scratch done room = record {
  bytes = done ++ room;
  cap = length done + length room;
  len = length done;
}

abbrev pub NoNewline : Bytes → Type 0
NoNewline [] = Unit
NoNewline (c ∷ cs) = (c ≢ 10) × NoNewline cs

abbrev pub last : ℕ → Bytes → ℕ
last x [] = x
last x (y ∷ ys) = last y ys

-- A line without the carriage return at its end, if there is one.
abbrev pub without_cr : Bytes → Bytes
without_cr [] = []
without_cr (x ∷ xs) = if last x xs == 13 then take (length xs) (x ∷ xs) else x ∷ xs

-- Scratch buffers with equal parts.
same_scratch : {s t : Scratch} → s.bytes ≡ t.bytes → s.cap ≡ t.cap → s.len ≡ t.len → ok s ≡ ok t
same_scratch {s} {t} p q r = ap ok (joined p q r)
  where
    joined : s.bytes ≡ t.bytes → s.cap ≡ t.cap → s.len ≡ t.len → s ≡ t
    joined p q r i = record { bytes = p i; cap = q i; len = r i }

==_false : (a b : ℕ) → a ≢ b → (a == b) ≡ false
==_false a b h = ground (arith, h)

split_cons : (xs : Bytes) → 0 < length xs → (x : ℕ) × (rest : Bytes) × (xs ≡ x ∷ rest)
split_cons [] h = absurd (omega arith)
split_cons (x ∷ xs) h = (x, xs, refl)

get_elem?-last :
    (x : ℕ) (xs room : Bytes) → get_elem? ((x ∷ xs) ++ room) (length xs) ≡ some (last x xs)
get_elem?-last x [] room = refl
get_elem?-last x (y ∷ ys) room = get_elem?-last y ys room

put_char_lem :
    (ch x : ℕ) (done room : Bytes)
    → put_char ch (scratch done (x ∷ room)) ≡ ok (scratch (done ++ ch ∷ []) room)
unfolding put_char
put_char_lem ch x done room =
    rw
      (
        store_lem (done ++ x ∷ room) (length done) ch
            (omega (arith, length-append done (x ∷ room))),
        set-append done x ch room (length done) refl,
      )
      (same_scratch (sym (append_assoc done (ch ∷ []) room))
        (omega (arith, length-append done (ch ∷ []))) (sym (length-append done (ch ∷ []))))

strip_cr_lem : (xs room : Bytes) → strip_cr (scratch xs room) ≡ ok (length (without_cr xs))
unfolding strip_cr
strip_cr_lem [] room = refl
strip_cr_lem (x ∷ xs) room =
    let at : suc (length xs) - 1 ≡ length xs = omega arith in
    rw
      (
        lt→ltb 0 (suc (length xs)) (omega arith),
        at,
        load_lem ((x ∷ xs) ++ room) (length xs) (get_elem?-last x xs room),
      )
      (ground (arith, length-take (length xs) (x ∷ xs)))

module _ (junk : ℕ → ℕ) where
  roomy_lem :
      (done room : Bytes)
      → 0 < length room
      → length room ≤ length done + 64
      → length done < 2 ^ 60
      → (x : ℕ) × (room' : Bytes) × (roomy junk (scratch done room) ≡ ok (scratch done (x ∷ room')))
        × (0 < length room')
        × (length room' < length done + 64)
  unfolding roomy
  roomy_lem done [] some_left few small = absurd (omega arith)
  roomy_lem done (x ∷ y ∷ room) some_left few small = (
    x,
    y ∷ room,
    rw (lt→leb (length done + length (x ∷ y ∷ room)) (length done + 1) (omega arith)),
    omega arith,
    omega arith,
  )
  roomy_lem done (x ∷ []) some_left few small =
      let n : ℕ = (length done + 1) * 2 in
      let behind : Bytes = drop (0 + length done) (fresh junk n) in
      let size : length behind ≡ length done + 2 =
        omega (arith, length-drop (0 + length done) (fresh junk n), length-fresh junk n) in
      let (x', rest, e) = split_cons behind (omega arith) in
      let size' : suc (length rest) ≡ length done + 2 = ap length (sym e) ∙ size in
      (
        x',
        rest,
        rw
            (
              le→leb (length done + 1) (length done + 1) (omega arith),
              mul_int64_lem (length done + 1) 2 (omega arith),
              memcpy_lem (fresh junk n) 0 (done ++ x ∷ []) 0 (length done)
                  (omega (arith, length-fresh junk n)) (omega (arith, length-append done (x ∷ []))),
            )
            (same_scratch (ap₂ ◌++◌ (take-append (length done) done (x ∷ []) refl) e) (omega arith)
              refl),
        omega arith,
        omega arith,
      )

  line_loop_lem :
      (xs tail rest done room : Bytes)
      → ((s : Scratch) → line_loop junk tail s ≡ ok (record { value = s; rest = rest }))
      → NoNewline xs
      → 0 < length room
      → length room ≤ length done + 64
      → length done + length xs < 2 ^ 60
      → (room' : Bytes) × (line_loop junk (xs ++ tail) (scratch done room)
          ≡ ok (record { value = scratch (done ++ xs) room'; rest = rest }))
  unfolding line_loop
  line_loop_lem [] tail rest done room ends plain some_left few small = (
    room,
    ends (scratch done room)
        ∙ ap (λ done'. ok (record { value = scratch done' room; rest = rest }))
            (sym (append-nil done)),
  )
  line_loop_lem (ch ∷ xs) tail rest done room ends plain some_left few small =
      let (x, room₁, e, l, b) = roomy_lem done room some_left few (omega arith) in
      let grown = length-append done (ch ∷ []) in
      let (room', f) =
        line_loop_lem xs tail rest (done ++ ch ∷ []) room₁ ends plain.1 l (omega (arith, grown))
          (omega (arith, grown)) in
      (
        room',
        rw (==_false ch 10 plain.0, e, put_char_lem ch x done room₁, f)
            (ap (λ d. ok (record { value = scratch d room'; rest = rest }))
              (append_assoc done (ch ∷ []) xs)),
      )

  ends :
      (newline : Bool) (rest : Bytes) (s : Scratch)
      → line_loop junk (if newline then 10 ∷ rest else []) s
        ≡ ok (record { value = s; rest = if newline then rest else [] })
  unfolding line_loop
  ends true rest s = refl
  ends false rest s = refl

  length-without_cr : (xs : Bytes) → length (without_cr xs) ≤ length xs
  length-without_cr [] = omega arith
  length-without_cr (x ∷ xs) = ground (arith, length-take (length xs) (x ∷ xs))

  take-without_cr : (xs room : Bytes) → take (length (without_cr xs)) (xs ++ room) ≡ without_cr xs
  take-without_cr [] room = refl
  take-without_cr (x ∷ xs) room = elim (Bool-cases (last x xs == 13)) [
    | inl cr ↦ rw cr (
        ap (λ n. take n ((x ∷ xs) ++ room)) {y = length xs}
          (omega (arith, length-take (length xs) (x ∷ xs)))
        ∙ take-append_le (length xs) (x ∷ xs) room (omega arith))
    | inr plain ↦ rw plain (take-append (suc (length xs)) (x ∷ xs) room refl)
  ]

  -- read_stdin_line on a line of fewer than 2 ^ 60 bytes, which ends at a newline or at the end of
  -- stdin, returns its bytes without the newline and without a carriage return at the end, however
  -- often its buffer grew, and leaves stdin behind the newline.
  pub read_stdin_line_lem :
      (xs rest : Bytes) (newline : Bool)
      → NoNewline xs
      → length xs < 2 ^ 60
      → read_stdin_line junk (xs ++ (if newline then 10 ∷ rest else []))
        ≡ ok (record { value = str_of (without_cr xs); rest = if newline then rest else [] })
  unfolding read_stdin_line
  read_stdin_line_lem xs rest newline plain h =
      let tail : Bytes = if newline then 10 ∷ rest else [] in
      let (room, e) =
        line_loop_lem xs tail (if newline then rest else []) [] (fresh junk 64) (ends newline rest)
          plain (omega (arith, length-fresh junk 64)) (omega (arith, length-fresh junk 64))
          (omega arith) in
      let n : ℕ = length (without_cr xs) in
      let started : line_loop junk (xs ++ tail)
            (record { bytes = fresh junk 64; cap = 64; len = 0 })
          ≡ ok (record { value = scratch xs room; rest = if newline then rest else [] }) =
        ap (λ c. line_loop junk (xs ++ tail) (record { bytes = fresh junk 64; cap = c; len = 0 }))
          {y = 0 + length (fresh junk 64)} (omega (arith, length-fresh junk 64))
        ∙ e in
      rw
        (
          started,
          strip_cr_lem xs room,
          kod_str_new_lem junk n (omega (arith, length-without_cr xs)),
          fill_lem (fresh junk n) (xs ++ room) 0 n (length-fresh junk n)
              (omega (arith, length-without_cr xs, length-append xs room)),
        )
        (ap
          (λ b. ok (record {
            value = record { buf = b ++ 0 ∷ []; len = n };
            rest = if newline then rest else [];
          }))
          (take-without_cr xs room))
