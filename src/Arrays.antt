-- ===== src/Arrays.antt =====
-- The arrays of stdlib/runtime.c, on a store in which two names may mean one array.
pub mod Holds
pub mod Loop
pub mod Append
pub mod Regrow
pub mod Concat
pub mod Fresh
mod Tests
use kodlang.Base.{
  ℕ, zero, suc, ◌+◌, ◌*◌, ◌≡◌, List, [], ◌∷◌, Option, none, some, Run, ok, undefined, ◌>>=◌,
  add_int64, mul_int64, fresh, load, store, memcpy, ltb, leb, ◌==◌, if◌then◌else◌,
}
use kodlang.Base.Int.{ℤ, pos, negsuc}
use kodlang.Growth.{grow}
use kodlang.Str.{clamp_slice, offset}

-- `ptr` names a block of slots. A slot is the 64-bit pattern of its element.
pub record KodArray : Type 0 where
  pub ptr : ℕ
  pub len : ℕ
  pub cap : ℕ

-- The arena's array headers and blocks of slots, by address. Addresses from `next` on are unused.
pub record Store : Type 0 where
  pub headers : ℕ → Option KodArray
  pub blocks : ℕ → Option (List ℕ)
  pub next : ℕ

abbrev pub update {ℓ} : {A : Type ℓ} → (ℕ → Option A) → ℕ → A → ℕ → Option A
update f p v q = if q == p then some v else f q

abbrev pub put_header : Store → ℕ → KodArray → Store
put_header σ a h = record σ { headers = update σ.headers a h }

abbrev pub put_block : Store → ℕ → List ℕ → Store
put_block σ p b = record σ { blocks = update σ.blocks p b }

-- An access through an address that holds no object is undefined.
unfoldable pub found {ℓ} : {A : Type ℓ} → Option A → Run A
found none = undefined
found (some v) = ok v

-- `dst[at + i] = src[i]` for `n` rounds from `i` on.
unfoldable pub copy_slots : ℕ → ℕ → (dst at src : ℕ) → Store → Run Store
copy_slots zero i dst at src σ = ok σ
copy_slots (suc n) i dst at src σ = do
  from ← found (σ.blocks src)
  v ← load from i
  to ← found (σ.blocks dst)
  written ← store to (at + i) v
  copy_slots n (i + 1) dst at src (put_block σ dst written)

-- `arena_alloc` of a header, at an unused address, and what is written there.
abbrev pub alloc_header : Store → KodArray → Store
alloc_header σ h = record (put_header σ σ.next h) { next = σ.next + 1 }

-- The end of `kod_array_concat`, which reads both headers again.
unfoldable pub append_slots : (lhs rhs : ℕ) → ℕ → Store → Run Store
append_slots lhs rhs total σ = do
  l ← found (σ.headers lhs)
  r ← found (σ.headers rhs)
  copied ← copy_slots r.len 0 l.ptr l.len r.ptr σ
  ok (put_header copied lhs (record l { len = total }))

module _ (junk : ℕ → ℕ) where
  -- `arena_alloc` of `n` slots, at an unused address.
  abbrev pub alloc_slots : Store → ℕ → Store
  alloc_slots σ n = record (put_block σ σ.next (fresh junk n)) { next = σ.next + 1 }

  -- The part of `kod_array_concat` under `lhs->cap < total`.
  unfoldable pub grow_array : ℕ → KodArray → ℕ → Store → Run Store
  grow_array lhs l total σ = do
    new_cap ← grow total (if ltb 0 l.cap then l.cap else 4) total
    bytes ← mul_int64 new_cap 8
    moved ← copy_slots l.len 0 σ.next 0 l.ptr (alloc_slots σ new_cap)
    ok (put_header moved lhs (record l { ptr = σ.next; cap = new_cap }))

  -- Returns `lhs`, whose array it changes.
  unfoldable pub kod_array_concat : (lhs rhs : ℕ) → Store → Run Store
  kod_array_concat lhs rhs σ = do
    l ← found (σ.headers lhs)
    r ← found (σ.headers rhs)
    total ← add_int64 l.len r.len
    roomy ← if ltb l.cap total then grow_array lhs l total σ else ok σ
    append_slots lhs rhs total roomy

  -- A new array of `len` slots (one at least is allocated), filled by `memcpy` from `at` in `src`.
  unfoldable pub filled : (len at : ℕ) → List ℕ → Store → Run (ℕ × Store)
  filled len at src σ = do
    let slots = if ltb 0 len then len else 1
    size ← mul_int64 len 8
    buf ← if ltb 0 len then memcpy (fresh junk slots) 0 src at len else ok (fresh junk slots)
    let out = alloc_header σ (record { ptr = σ.next + 1; len = len; cap = len })
    ok (σ.next, record (put_block out out.next buf) { next = out.next + 1 })

  unfoldable pub kod_array_slice : ℕ → ℤ → ℤ → Store → Run (ℕ × Store)
  kod_array_slice src start end σ = do
    s ← found (σ.headers src)
    let (from, count) = clamp_slice s.len start end
    len ← offset count
    at ← offset from
    elems ← found (σ.blocks s.ptr)
    filled len at elems σ

  unfoldable pub kod_array_copy : ℕ → Store → Run (ℕ × Store)
  kod_array_copy src σ = do
    s ← found (σ.headers src)
    elems ← found (σ.blocks s.ptr)
    filled s.len 0 elems σ

  unfoldable pub kod_array_concat_new : (lhs rhs : ℕ) → Store → Run (ℕ × Store)
  kod_array_concat_new lhs rhs σ = do
    l ← found (σ.headers lhs)
    r ← found (σ.headers rhs)
    total ← add_int64 l.len r.len
    size ← mul_int64 total 8
    left ← found (σ.blocks l.ptr)
    right ← found (σ.blocks r.ptr)
    let slots = fresh junk (if ltb 0 total then total else 1)
    first ← if ltb 0 l.len then memcpy slots 0 left 0 l.len else ok slots
    both ← if ltb 0 r.len then memcpy first l.len right 0 r.len else ok first
    let out = alloc_header σ (record { ptr = σ.next + 1; len = total; cap = total })
    ok (σ.next, record (put_block out out.next both) { next = out.next + 1 })
