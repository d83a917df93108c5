-- ===== src/Str/Repr.antt =====
-- The string that stands for a list of bytes, and the memory that a new string starts from.
use kodlang.Base.{
  ℕ, zero, suc, ◌+◌, ◌-◌, ◌^◌, ◌<◌, ◌≤◌, ◌≡◌, refl, ap, ◌∙◌, Bytes, [], ◌∷◌, ◌++◌, ok, ◌>>=◌,
  add_int64, add_int64_lem, fresh, fresh_from, length, length-append, length-fresh,
  length-fresh_from, set, store, memcpy, memcpy_lem, take, drop, drop-append, lt→ltb, arith,
}
use kodlang.Str.{KodStr, header, kod_str_new}

-- The bytes, and the terminator behind them.
abbrev pub str_of : Bytes → KodStr
str_of xs = record { buf = xs ++ 0 ∷ []; len = length xs }

-- What the header, the bytes and the terminator take fits an `int64_t`.
abbrev pub Fits : ℕ → Type 0
Fits n = n + 17 < 2 ^ 63

set-fresh_from :
    (junk : ℕ → ℕ) (i n : ℕ) → set (fresh_from junk i (suc n)) n 0 ≡ fresh_from junk i n ++ 0 ∷ []
set-fresh_from junk i zero = refl
set-fresh_from junk i (suc n) = ap (λ r. junk i ∷ r) (set-fresh_from junk (i + 1) n)

-- A new string of `len` bytes is terminated, and its bytes are those of unwritten memory.
pub kod_str_new_lem :
    (junk : ℕ → ℕ) (len : ℕ)
    → Fits len
    → kod_str_new junk len ≡ ok (record { buf = fresh junk len ++ 0 ∷ []; len = len })
unfolding kod_str_new add_int64 fresh store
kod_str_new_lem junk len h =
    let e : header + len + 1 - header ≡ suc len = omega arith in
    rw
      (
        add_int64_lem header len (omega arith),
        add_int64_lem (header + len) 1 (omega arith),
        e,
        lt→ltb len (length (fresh_from junk 0 (suc len)))
            (omega (arith, length-fresh_from junk 0 (suc len))),
      )
      (ap (λ b. ok (record { buf = b; len = len })) (set-fresh_from junk 0 len))

-- A copy over all bytes of a new string leaves the string of what was copied.
pub fill_lem :
    (old src : Bytes) (at n : ℕ)
    → length old ≡ n
    → at + n ≤ length src
    → memcpy (old ++ 0 ∷ []) 0 src at n ≡ ok (take n (drop at src) ++ 0 ∷ [])
fill_lem old src at n h k =
    memcpy_lem (old ++ 0 ∷ []) 0 src at n (omega (arith, length-append old (0 ∷ []))) k
    ∙ ap (λ r. ok (take n (drop at src) ++ r))
        (ap (λ m. drop m (old ++ 0 ∷ [])) (omega arith) ∙ drop-append n old (0 ∷ []) (omega arith))

module _ (junk : ℕ → ℕ) where
  -- The common end of the functions below: a new string, and a copy over all its bytes.
  pub new_fill :
      (src : Bytes) (at n : ℕ)
      → Fits n
      → at + n ≤ length src
      → (do s ← kod_str_new junk n; buf ← memcpy s.buf 0 src at n; ok (record s { buf = buf }))
        ≡ ok (record { buf = take n (drop at src) ++ 0 ∷ []; len = n })
  new_fill src at n h k =
      rw (kod_str_new_lem junk n h, fill_lem (fresh junk n) src at n (length-fresh junk n) k)
