-- ===== src/Str.antt =====
-- The strings of the runtime: `KodStr` of stdlib/kod_rt.h and the functions of stdlib/runtime.c
-- that make one from others.
pub mod Repr
pub mod Ops
pub mod Cstr
pub mod Order
mod Tests
use kodlang.Base.{
  ℕ, zero, suc, ◌+◌, ◌-◌, ◌%◌, ◌≡◌, Bytes, List, [], ◌∷◌, Run, ok, undefined, ◌>>=◌, add_int64,
  fresh, memcpy, load, store, ltb, if◌then◌else◌, ◌==◌,
}
use kodlang.Base.Int.{ℤ, pos, negsuc, ltb_ℤ, ◌-ℤ◌, sub_ℕ}

-- `buf` is the whole byte buffer behind the header: `len` bytes and the NUL terminator.
pub record KodStr : Type 0 where
  pub buf : Bytes
  pub len : ℕ

-- `sizeof(KodStr)`
abbrev pub header : ℕ
header = 16

-- An `int64_t` that is used as an offset or a size: a negative one lies before the object.
unfoldable pub offset : ℤ → Run ℕ
offset (pos n) = ok n
offset (negsuc n) = undefined

-- The new `*start`, and the length.
unfoldable pub clamp_slice : ℕ → ℤ → ℤ → ℤ × ℤ
clamp_slice len start end =
    let from_zero = if ltb_ℤ start (pos 0) then pos 0 else start in
    let from = if ltb_ℤ (pos len) from_zero then pos len else from_zero in
    let to = if ltb_ℤ (pos len) end then pos len else end in
    (from, if ltb_ℤ from to then to -ℤ from else pos 0)

-- What memory holds before it is written is a parameter.
module _ (junk : ℕ → ℕ) where
  unfoldable pub kod_str_new : ℕ → Run KodStr
  kod_str_new len = do
    up_to_nul ← add_int64 header len
    total ← add_int64 up_to_nul 1
    buf ← store (fresh junk (total - header)) len 0
    ok (record { buf = buf; len = len })

  unfoldable pub kod_str_from_bytes : Bytes → ℕ → Run KodStr
  kod_str_from_bytes p n = do
    s ← kod_str_new n
    buf ← memcpy s.buf 0 p 0 n
    ok (record s { buf = buf })

  unfoldable pub kod_str_slice : KodStr → ℤ → ℤ → Run KodStr
  kod_str_slice s start end = do
    let (from, count) = clamp_slice s.len start end
    len ← offset count
    out ← kod_str_new len
    at ← offset from
    buf ← memcpy out.buf 0 s.buf at len
    ok (record out { buf = buf })

  unfoldable pub kod_str_concat : KodStr → KodStr → Run KodStr
  kod_str_concat a b = do
    total ← add_int64 a.len b.len
    out ← kod_str_new total
    first ← memcpy out.buf 0 a.buf 0 a.len
    both ← memcpy first a.len b.buf 0 b.len
    ok (record out { buf = both })

-- The C library's `strlen`: it reads up to the first NUL, which must be inside the object.
unfoldable pub strlen : Bytes → Run ℕ
strlen [] = undefined
strlen (zero ∷ cs) = ok 0
strlen (suc c ∷ cs) = do n ← strlen cs; ok (n + 1)

module _ (junk : ℕ → ℕ) where
  unfoldable pub kod_str_from_cstr : Bytes → Run KodStr
  kod_str_from_cstr cstr = do
    len ← strlen cstr
    s ← kod_str_new junk len
    buf ← memcpy s.buf 0 cstr 0 len
    ok (record s { buf = buf })

-- The loop of `kod_bytes_from_array`, with `n` rounds left and the next one at `i`.
unfoldable pub pack_loop : ℕ → ℕ → List ℕ → Bytes → Run Bytes
pack_loop zero i src buf = ok buf
pack_loop (suc n) i src buf = do
  v ← load src i
  next ← store buf i (v % 256)
  pack_loop n (i + 1) src next

module _ (junk : ℕ → ℕ) where
  -- An element is the bit pattern of its `int64_t`, so that `& 0xff` is `% 256`.
  unfoldable pub kod_bytes_from_array : List ℕ → ℕ → Run KodStr
  kod_bytes_from_array src len = do
    s ← kod_str_new junk len
    buf ← pack_loop len 0 src s.buf
    ok (record s { buf = buf })

-- The C standard fixes the sign of what `memcmp` returns, and not its size, which `magnitude` gives
-- for the two bytes that differ.
module _ (magnitude : ℕ → ℕ → ℕ) where
  unfoldable pub memcmp : Bytes → Bytes → ℕ → Run ℤ
  memcmp a b zero = ok (pos 0)
  memcmp (x ∷ a) (y ∷ b) (suc n) =
      let rest = memcmp a b n in
      if x == y
      then rest
      else ok (if ltb x y then negsuc (magnitude x y) else pos (suc (magnitude x y)))
  memcmp _ _ _ = undefined

  unfoldable pub kod_str_cmp : KodStr → KodStr → Run ℤ
  kod_str_cmp a b = do
    rc ← memcmp a.buf b.buf (if ltb a.len b.len then a.len else b.len)
    elim rc [ pos zero ↦ ok (sub_ℕ a.len b.len) | other ↦ ok other ]
