-- ===== src/Str/Cstr.antt =====
-- `kod_str_from_cstr` and `kod_bytes_from_array` of stdlib/runtime.c.
use kodlang.Base.{
  ℕ, zero, suc, ◌+◌, ◌%◌, ◌≡◌, ◌≢◌, refl, ap, ◌∙◌, Bytes, List, [], ◌∷◌, ◌++◌, map, ok, fresh,
  length, length-append, length-fresh, length-map, load_lem, store_lem, take-append,
  get_elem?-append_right, set-append, append_assoc, arith,
}
use kodlang.Str.{strlen, kod_str_from_cstr, pack_loop, kod_bytes_from_array}
use kodlang.Str.Repr.{str_of, Fits, kod_str_new_lem, new_fill}

-- No byte of the list is NUL.
abbrev pub NoNul : Bytes → Type 0
NoNul [] = Unit
NoNul (c ∷ cs) = (c ≢ 0) × NoNul cs

pub strlen_lem : (xs rest : Bytes) → NoNul xs → strlen (xs ++ 0 ∷ rest) ≡ ok (length xs)
unfolding strlen
strlen_lem [] rest h = refl
strlen_lem (zero ∷ xs) rest h = absurd (h.0 refl)
strlen_lem (suc c ∷ xs) rest h = rw (strlen_lem xs rest h.1) (ap ok (omega arith))

-- With the first `i` elements packed, the loop packs the rest and leaves what lies behind.
pack_loop_lem :
    (src done old : List ℕ) (before post : Bytes) (i : ℕ)
    → i ≡ length done
    → length before ≡ length done
    → length old ≡ length src
    → pack_loop (length src) i (done ++ src) (before ++ (old ++ post))
      ≡ ok (before ++ (map (λ x. x % 256) src ++ post))
unfolding pack_loop
pack_loop_lem [] done [] before post i hi hb ho = refl
pack_loop_lem [] done (o ∷ old) before post i hi hb ho = absurd (omega arith)
pack_loop_lem (x ∷ src) done [] before post i hi hb ho = absurd (omega arith)
pack_loop_lem (x ∷ src) done (o ∷ old) before post i hi hb ho =
    rw
      (
        load_lem (done ++ x ∷ src) i (get_elem?-append_right i done (x ∷ src) hi),
        store_lem (before ++ (o ∷ old ++ post)) i (x % 256)
            (omega (arith, length-append before (o ∷ old ++ post))),
        set-append before o (x % 256) (old ++ post) i (omega arith),
        ← append_assoc done (x ∷ []) src,
        ← append_assoc before (x % 256 ∷ []) (old ++ post),
      )
      (pack_loop_lem src (done ++ x ∷ []) old (before ++ x % 256 ∷ []) post (i + 1)
          (omega (arith, length-append done (x ∷ [])))
          (omega (arith, length-append done (x ∷ []), length-append before (x % 256 ∷ [])))
          (omega arith)
        ∙ ap ok (append_assoc before (x % 256 ∷ []) (map (λ y. y % 256) src ++ post)))

module _ (junk : ℕ → ℕ) where
  -- kod_str_from_cstr gives the string of the bytes in front of the first NUL, whatever lies behind
  -- it. The bytes with their header and terminator fit an int64_t.
  pub kod_str_from_cstr_lem :
      (xs rest : Bytes)
      → NoNul xs
      → Fits (length xs)
      → kod_str_from_cstr junk (xs ++ 0 ∷ rest) ≡ ok (str_of xs)
  unfolding kod_str_from_cstr
  kod_str_from_cstr_lem xs rest no_nul h = rw (
    strlen_lem xs rest no_nul,
    new_fill junk (xs ++ 0 ∷ rest) 0 (length xs) h (omega (arith, length-append xs (0 ∷ rest))),
    take-append (length xs) xs (0 ∷ rest) refl,
  )

  -- kod_bytes_from_array keeps the low 8 bits of each element, in order. The bytes with their
  -- header and terminator fit an int64_t.
  pub kod_bytes_from_array_lem :
      (xs : List ℕ)
      → Fits (length xs)
      → kod_bytes_from_array junk xs (length xs) ≡ ok (str_of (map (λ x. x % 256) xs))
  unfolding kod_bytes_from_array
  kod_bytes_from_array_lem xs h = rw (
    kod_str_new_lem junk (length xs) h,
    pack_loop_lem xs [] (fresh junk (length xs)) [] (0 ∷ []) 0 refl refl
        (length-fresh junk (length xs)),
    length-map xs (λ x. x % 256),
  )
