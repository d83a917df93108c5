-- ===== src/Files/Reading.antt =====
-- `read_file`.
use kodlang.Base.{
  Bool-cases, ℕ, ◌+◌, ◌-◌, ◌*◌, ◌^◌, ◌<◌, ◌≤◌, ◌≡◌, ◌⊎◌, inl, inr, refl, subst, ap, ap₂, ◌∙◌, Bytes,
  [], ◌∷◌, ◌++◌, Bool, true, false, Option, none, some, Run, ok, ◌>>=◌, fresh, length-fresh, length,
  length-append, take-append, arith,
}
use kodlang.Str.{KodStr}
use kodlang.Str.Repr.{str_of, kod_str_new_lem, fill_lem}
use kodlang.Str.Cstr.{NoNul}
use kodlang.Fd.Calls.{c_string_lem}
use kodlang.Files.{
  Stdio, Held, fclose, free, Contents, empty_str, finish_file, read_opened, read_file,
}
use kodlang.Files.Streams.{View, ReadsFull}
use kodlang.Files.Loop.{Loaded, file_loop_lem}

empty_str_lem : (junk : ℕ → ℕ) (w : Held) → empty_str junk w ≡ ok (str_of [], w)
unfolding empty_str
empty_str_lem junk w = rw (kod_str_new_lem junk 0 (omega arith)) (unfold fresh in refl)

-- The world in the loop, and what its end gives back.
abbrev inside : Held → Held
inside w = record { streams = w.streams + 1; buffers = w.buffers + 1 }

one_less : (n : ℕ) → n + 1 - 1 ≡ n
one_less n = omega arith

given_back : (w : Held) → free (fclose (inside w)) ≡ w
unfolding free fclose
given_back w =
    ap₂ (λ m n. record { streams = m; buffers = n }) (one_less w.streams) (one_less w.buffers)

closed : (w : Held) → fclose (record w { streams = w.streams + 1 }) ≡ w
unfolding fclose
closed w = ap (λ m. record w { streams = m }) (one_less w.streams)

module _ {Z : Type 0} (v : View Z) (gives : ℕ → Bool) where
  -- The results for a stream: its whole text, or the empty string for an error or for want of
  -- memory. What is held is as it was.
  abbrev pub Outcome : Z → Held → Run (KodStr × Held) → Type 0
  Outcome z w r =
      ((v.broken z ≡ false) × (r ≡ ok (str_of (v.text z), w)))
      ⊎ (((v.broken z ≡ true)
            ⊎ ((size : ℕ) × (gives size ≡ false) × (size ≤ 65536 + 2 * length (v.text z))))
          × (r ≡ ok (str_of [], w)))

  -- What is read of a file that may not open.
  abbrev pub FileOutcome : Option Z → Held → Run (KodStr × Held) → Type 0
  FileOutcome none w r = r ≡ ok (str_of [], w)
  FileOutcome (some z) w r = Outcome z w r

module _ {Z : Type 0} (stdio : Stdio Z) (v : View Z) (junk : ℕ → ℕ) (gives : ℕ → Bool)
    (p : ReadsFull v stdio) where
  finished_lem :
      (z : Z) (w : Held) (r : Run (Contents Z))
      → length (v.text z) < 2 ^ 62
      → Loaded stdio v junk gives p (v.text z) (v.broken z) (inside w) r
      → Outcome v gives z w (r >>= λ c. finish_file stdio junk c)
  unfolding finish_file fclose free
  finished_lem z w r most (inl (rest, fp, e, told)) = elim (Bool-cases (v.broken z)) [
    | inl broken ↦ inr (
      inl broken,
      rw (e, told ∙ broken, empty_str_lem junk) (ap (λ u. ok (str_of [], u)) (given_back w)),
    )
    | inr sound ↦
        let text = v.text z in
        let copied =
          fill_lem (fresh junk (length text)) (text ++ rest) 0 (length text)
            (length-fresh junk (length text)) (omega (arith, length-append text rest)) in
        inl (
          sound,
          rw (e, told ∙ sound, kod_str_new_lem junk (length text) (omega arith), copied)
              (ap₂ (λ b u. ok (record { buf = b ++ 0 ∷ []; len = length text }, u))
                (take-append (length text) text rest refl) (given_back w)),
        )
  ]
  finished_lem z w r most (inr (size, n, fp, refused, small, e)) = inr (
    inr (size, refused, omega (arith, small)),
    rw (e, empty_str_lem junk) (ap (λ u. ok (str_of [], u)) (given_back w)),
  )

  opened_lem :
      (fuel : ℕ) (z : Z) (w : Held)
      → length (v.text z) < 2 ^ 62
      → length (v.text z) < fuel
      → Outcome v gives z w
          (read_opened stdio junk gives fuel z (record w { streams = w.streams + 1 }))
  unfolding read_opened finish_file
  opened_lem fuel z w most enough = elim (Bool-cases (gives 65536)) [
    | inl served ↦
        let size = length-fresh junk 65536 in
        let loaded =
          file_loop_lem stdio v junk gives p (v.text z) (v.broken z) (inside w) most fuel []
            (fresh junk 65536) 65536 0 z enough (omega (arith, size)) refl (omega (arith, size))
            refl refl in
        subst (Outcome v gives z w) (rw served refl) (finished_lem z w _ most loaded)
    | inr refused ↦ inr (
      inr (65536, refused, omega arith),
      rw (refused, empty_str_lem junk) (ap (λ u. ok (str_of [], u)) (closed w)),
    )
  ]

  named_lem :
      (fuel : ℕ) (found : Option Z) (w : Held)
      → ((z : Z) → found ≡ some z → (length (v.text z) < 2 ^ 62) × (length (v.text z) < fuel))
      → FileOutcome v gives found w (elim found as (λ _. Run (KodStr × Held)) [
        | none ↦ empty_str junk w
        | some z ↦ read_opened stdio junk gives fuel z (record w { streams = w.streams + 1 })
      ])
  named_lem fuel none w h = empty_str_lem junk w
  named_lem fuel (some z) w h = let (most, enough) = h z refl in opened_lem fuel z w most enough

  -- For a file of fewer than 2 ^ 62 bytes, whose stream gives as many bytes as are asked for until
  -- its end or an error: read_file returns exactly its bytes. It returns the empty string instead
  -- where the file does not open, where the stream ends by an error, or where there is no memory
  -- for some size of at most 65536 plus twice the length of the file. No stream and no buffer is
  -- left over, and no access is outside the buffer.
  pub read_file_lem :
      (fuel : ℕ) (name behind : Bytes) (len : ℕ) (w : Held)
      → NoNul name
      → ((z : Z)
          → stdio.fopen name ≡ some z
          → (length (v.text z) < 2 ^ 62) × (length (v.text z) < fuel))
      → FileOutcome v gives
          (stdio.fopen name)
          w
          (read_file stdio junk gives fuel (record { buf = name ++ 0 ∷ behind; len = len }) w)
  unfolding read_file
  read_file_lem fuel name behind len w no_nul h =
      rw (c_string_lem name behind no_nul) (named_lem fuel (stdio.fopen name) w h)
