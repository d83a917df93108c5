-- ===== src/Process/Argv.antt =====
-- The arguments that a child is started with.
use kodlang.Base.{
  ℕ, zero, suc, ◌+◌, ◌^◌, ◌<◌, ◌≡◌, refl, ap, ◌∙◌, sym, Bytes, List, [], ◌∷◌, ◌++◌, map, Option,
  none, some, ok, add_int64_lem, fresh, fresh_from, length, length-append, length-map, store_lem,
  set-append, append_assoc, arith,
}
use kodlang.Process.{argv_loop, c_argv}
use kodlang.Str.{KodStr}

-- The texts of the arguments, each where its string has it, and NULL behind them.
abbrev pub arguments : List KodStr → List (Option Bytes)
arguments argv_arr = map (λ (s : KodStr). some s.buf) argv_arr

argv_loop_lem :
    (rest : List KodStr) (done old post : List (Option Bytes)) (i : ℕ)
    → i ≡ length done
    → length old ≡ length rest
    → argv_loop rest i (done ++ (old ++ post)) ≡ ok (done ++ (arguments rest ++ post))
unfolding argv_loop
argv_loop_lem [] done [] post i hi ho = refl
argv_loop_lem [] done (o ∷ old) post i hi ho = absurd (omega arith)
argv_loop_lem (s ∷ rest) done [] post i hi ho = absurd (omega arith)
argv_loop_lem (s ∷ rest) done (o ∷ old) post i hi ho =
    rw
      (
        store_lem (done ++ (o ∷ old ++ post)) i (some s.buf)
            (omega (arith, length-append done (o ∷ old ++ post))),
        set-append done o (some s.buf) (old ++ post) i hi,
        ← append_assoc done (some s.buf ∷ []) (old ++ post),
      )
      (argv_loop_lem rest (done ++ some s.buf ∷ []) old post (i + 1)
          (omega (arith, length-append done (some s.buf ∷ []))) (omega arith)
        ∙ ap ok (append_assoc done (some s.buf ∷ []) (arguments rest ++ post)))

module _ (junk : ℕ → Option Bytes) where
  split_fresh :
      (i n : ℕ)
      → (old : List (Option Bytes)) × (x : Option Bytes) × (fresh_from junk i (suc n)
          ≡ old ++ x ∷ [])
        × (length old ≡ n)
  split_fresh i zero = ([], junk i, refl, refl)
  split_fresh i (suc n) =
      let (old, x, e, l) = split_fresh (i + 1) n in
      (junk i ∷ old, x, ap (λ r. junk i ∷ r) e, ap suc l)

  pub c_argv_lem :
      (argv_arr : List KodStr)
      → length argv_arr < 2 ^ 60
      → c_argv junk argv_arr ≡ ok (arguments argv_arr ++ none ∷ [])
  unfolding c_argv fresh
  c_argv_lem argv_arr small =
      let n : ℕ = length argv_arr in
      let (old, x, e, l) = split_fresh 0 n in
      let size : n + 1 ≡ suc n = omega arith in
      rw (
        add_int64_lem n 1 (omega arith),
        size,
        e,
        argv_loop_lem argv_arr [] old (x ∷ []) 0 refl l,
        store_lem (arguments argv_arr ++ x ∷ []) n none (
            omega (
              arith,
              length-append (arguments argv_arr) (x ∷ []),
              length-map argv_arr (λ (s : KodStr). some s.buf),
            )),
        set-append (arguments argv_arr) x none [] n
            (sym (length-map argv_arr (λ (s : KodStr). some s.buf))),
      )
