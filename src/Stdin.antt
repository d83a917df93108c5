-- ===== src/Stdin.antt =====
-- `read_stdin_line` of stdlib/runtime.c. Stdin is the list of the bytes that are still to come.
pub mod Line
mod Tests
use kodlang.Base.{
  ℕ, ◌+◌, ◌-◌, Bytes, [], ◌∷◌, Run, ok, ◌>>=◌, mul_int64, fresh, memcpy, load, store, ltb, leb,
  ◌==◌, if◌then◌else◌,
}
use kodlang.Str.{KodStr, kod_str_new}

-- The locals of the loop.
pub record Scratch : Type 0 where
  pub bytes : Bytes
  pub cap : ℕ
  pub len : ℕ

-- A value read, and what is left of stdin.
pub record Got (A : Type 0) : Type 0 where
  pub value : A
  pub rest : Bytes

-- `scratch[len++] = (char)ch;`
unfoldable pub put_char : ℕ → Scratch → Run Scratch
put_char ch s = do
  written ← store s.bytes s.len ch
  ok (record s { bytes = written; len = s.len + 1 })

-- `if (len > 0 && scratch[len - 1] == '\r') len--;`
unfoldable pub strip_cr : Scratch → Run ℕ
strip_cr s =
    if ltb 0 s.len
    then load s.bytes (s.len - 1) >>= (λ c. ok (if c == 13 then s.len - 1 else s.len))
    else ok 0

module _ (junk : ℕ → ℕ) where
  -- The part under `len + 1 >= cap`.
  unfoldable pub roomy : Scratch → Run Scratch
  roomy s =
      if leb s.cap (s.len + 1)
      then (do
        new_cap ← mul_int64 s.cap 2
        new_buf ← memcpy (fresh junk new_cap) 0 s.bytes 0 s.len
        ok (record s { bytes = new_buf; cap = new_cap }))
      else ok s

  -- The loop ends at the end of stdin, or behind a newline.
  unfoldable pub line_loop : Bytes → Scratch → Run (Got Scratch)
  line_loop [] s = ok (record { value = s; rest = [] })
  line_loop (ch ∷ input) s =
      let more = roomy s >>= put_char ch >>= line_loop input in
      if ch == 10 then ok (record { value = s; rest = input }) else more

  unfoldable pub read_stdin_line : Bytes → Run (Got KodStr)
  read_stdin_line input = do
    got ← line_loop input (record { bytes = fresh junk 64; cap = 64; len = 0 })
    len ← strip_cr got.value
    s ← kod_str_new junk len
    buf ← memcpy s.buf 0 got.value.bytes 0 len
    ok (record { value = record s { buf = buf }; rest = got.rest })
