-- ===== src/Files.antt =====
-- `read_file` and `read_stdin_exact` of stdlib/runtime.c. The streams of the C library are a parameter.
pub mod Streams
pub mod Loop
pub mod Reading
pub mod Exact
mod Tests
use kodlang.Base.{
  ℕ, zero, suc, ◌+◌, ◌-◌, ◌*◌, ◌%◌, ◌^◌, Bytes, Option, none, some, Bool, Run, ok, undefined,
  out_of_fuel, ◌>>=◌, fresh, memcpy, store, length, take, ltb, leb, ◌==◌, if◌then◌else◌,
}
use kodlang.Base.Int.{ℤ, pos, negsuc}
use kodlang.Str.{KodStr, kod_str_new}
use kodlang.Fd.{c_string}

-- The calls on a stream: `fopen` for reading, `fread` of single bytes, and `ferror`.
pub record Stdio (Z : Type 0) : Type 0 where
  pub fopen : Bytes → Option Z
  pub fread : ℕ → Z → Bytes × Z
  pub ferror : Z → Bool

-- How many streams are open and how many buffers are allocated.
pub record Held : Type 0 where
  pub streams : ℕ
  pub buffers : ℕ

unfoldable pub fclose : Held → Held
fclose w = record w { streams = w.streams - 1 }

unfoldable pub free : Held → Held
free w = record w { buffers = w.buffers - 1 }

unfoldable pub empty_str : (ℕ → ℕ) → Held → Run (KodStr × Held)
empty_str junk w = do s ← kod_str_new junk 0; ok (s, w)

-- `buf`, which may be NULL, `len` and `fp`, with what is held.
pub record Contents (Z : Type 0) : Type 0 where
  pub buf : Option Bytes
  pub len : ℕ
  pub fp : Z
  pub held : Held

module _ {Z : Type 0} (stdio : Stdio Z) where
  -- `while (got < n)`, on fuel: the buffer, `got` and stdin.
  unfoldable pub exact_loop : ℕ → ℕ → Bytes → ℕ → Z → Run (Bytes × (ℕ × Z))
  exact_loop zero n buf got z = out_of_fuel
  exact_loop (suc fuel) n buf got z =
      let r = stdio.fread (n - got) z in
      let onward = memcpy buf got r.0 0 (length r.0) >>= λ filled.
      exact_loop fuel n filled (got + length r.0) r.1 in
      let round = if length r.0 == 0 then ok (buf, (got, r.1)) else onward in
      if ltb got n then round else ok (buf, (got, z))

module _ {Z : Type 0} (stdio : Stdio Z) (junk : ℕ → ℕ) where
  -- `while (buf)`, on fuel, entered with a buffer; `gives` says which sizes there is memory for.
  unfoldable pub file_loop : (ℕ → Bool) → ℕ → Bytes → ℕ → ℕ → Z → Held → Run (Contents Z)
  file_loop gives zero buf cap len z w = out_of_fuel
  file_loop gives (suc fuel) buf cap len z w =
      let got = stdio.fread (cap - len) z in
      memcpy buf len got.0 0 (length got.0) >>= λ filled.
      let size = cap * 2 % 2 ^ 64 in
      let now = len + length got.0 in
      let more = memcpy (fresh junk size) 0 filled 0 cap >>= λ grown.
      file_loop gives fuel grown size now got.1 w in
      let lost : Contents Z = record { buf = none; len = now; fp = got.1; held = free w } in
      let grow = if gives size then more else ok lost in
      if ltb now cap
      then ok (record { buf = some filled; len = now; fp = got.1; held = w })
      else grow

  -- What follows the loop.
  unfoldable pub finish_file : Contents Z → Run (KodStr × Held)
  finish_file c = elim c.buf [
    | none ↦ empty_str junk (fclose c.held)
    | some buf ↦
        let read = kod_str_new junk c.len >>= λ s. memcpy s.buf 0 buf 0 c.len >>= λ copied.
        ok (record s { buf = copied }, free (fclose c.held)) in
        if stdio.ferror c.fp then empty_str junk (free (fclose c.held)) else read
  ]

  unfoldable pub read_opened : (ℕ → Bool) → ℕ → Z → Held → Run (KodStr × Held)
  read_opened gives fuel z w =
      let held = record w { buffers = w.buffers + 1 } in
      let loop = file_loop gives fuel (fresh junk 65536) 65536 0 z held >>= λ c. finish_file c in
      let nothing_read : Contents Z = record { buf = none; len = 0; fp = z; held = w } in
      if gives 65536 then loop else finish_file nothing_read

  unfoldable pub read_file : (ℕ → Bool) → ℕ → KodStr → Held → Run (KodStr × Held)
  read_file gives fuel path w = c_string path.buf >>= λ name. elim (stdio.fopen name) [
    | none ↦ empty_str junk w
    | some z ↦ read_opened gives fuel z (record w { streams = w.streams + 1 })
  ]

  -- The string, and stdin. Every round but the last one reads a byte.
  unfoldable pub read_stdin_exact : ℕ → Z → Run (KodStr × Z)
  read_stdin_exact n z = do
    s ← kod_str_new junk n
    (buf, (got, rest)) ← exact_loop stdio (n + 1) n s.buf 0 z
    let short = store buf got 0 >>= λ ended. ok (record s { buf = ended; len = got }, rest)
    if got == n then ok (record s { buf = buf }, rest) else short
