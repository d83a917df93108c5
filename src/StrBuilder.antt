-- ===== src/StrBuilder.antt =====
-- The growable byte buffer of stdlib/runtime.c: `KodStrBuilder` and the `kod_sb_…` functions.
pub mod Valid
pub mod Refine
pub mod Cost
mod Tests
use kodlang.Base.{
  ℕ, suc, ◌+◌, ◌/◌, ◌%◌, ◌^◌, Bytes, List, [], ◌∷◌, Run, ok, panicked, ◌>>=◌, int64_max, codes,
  take, length, add_int64, fresh, memcpy, store, leb, if◌then◌else◌, ◌++◌,
}
use kodlang.Base.Int.{pos, ltb_ℤ, sub_ℕ}
use kodlang.Growth.{grow}
use kodlang.Str.{KodStr, kod_str_from_bytes}

-- `buf` is the block of `cap` bytes, of which the first `len` are used.
pub record KodStrBuilder : Type 0 where
  pub buf : Bytes
  pub len : ℕ
  pub cap : ℕ

-- What `kod_panic` writes to stderr before the backtrace.
unfoldable pub kod_panic {ℓ} : {A : Type ℓ} → KodStr → Run A
kod_panic msg = panicked (codes "panic: " ++ (take msg.len msg.buf ++ codes "\n"))

abbrev pub too_large : Bytes
too_large = codes "string builder is too large"

unfoldable pub kod_sb_len : KodStrBuilder → ℕ
kod_sb_len sb = sb.len

unfoldable pub kod_sb_clear : KodStrBuilder → KodStrBuilder
kod_sb_clear sb = record sb { len = 0 }

-- A builder after `kod_sb_reserve`, the bytes of the buffer that it gave up, and the bytes that it
-- copied.
pub record Moved : Type 0 where
  pub builder : KodStrBuilder
  pub abandoned : ℕ
  pub copied : ℕ

module _ (junk : ℕ → ℕ) where
  unfoldable pub kod_sb_new : KodStrBuilder
  kod_sb_new = record { buf = fresh junk 32; len = 0; cap = 32 }

  -- The body of `kod_sb_reserve`, with what its `memcpy` costs.
  unfoldable pub reserve_moving : KodStrBuilder → ℕ → Run Moved
  reserve_moving sb extra =
      if ltb_ℤ (sub_ℕ (int64_max / 4) sb.len) (pos extra)
      then (do msg ← kod_str_from_bytes junk too_large 27; kod_panic msg)
      else do
        need ← add_int64 sb.len extra
        if leb need sb.cap then ok (record { builder = sb; abandoned = 0; copied = 0 }) else do
          new_cap ← grow need sb.cap need
          new_buf ← memcpy (fresh junk new_cap) 0 sb.buf 0 sb.len
          ok (record {
            builder = record sb { buf = new_buf; cap = new_cap };
            abandoned = sb.cap;
            copied = sb.len;
          })

  unfoldable pub kod_sb_reserve : KodStrBuilder → ℕ → Run KodStrBuilder
  kod_sb_reserve sb extra = do m ← reserve_moving sb extra; ok m.builder

  unfoldable pub kod_sb_append : KodStrBuilder → KodStr → Run KodStrBuilder
  kod_sb_append sb s = do
    roomy ← kod_sb_reserve sb s.len
    buf ← memcpy roomy.buf roomy.len s.buf 0 s.len
    len ← add_int64 roomy.len s.len
    ok (record roomy { buf = buf; len = len })

  -- `b & 0xff` of the bit pattern of `b` is `b % 256`.
  unfoldable pub kod_sb_append_byte : KodStrBuilder → ℕ → Run KodStrBuilder
  kod_sb_append_byte sb b = do
    roomy ← kod_sb_reserve sb 1
    buf ← store roomy.buf roomy.len (b % 256)
    len ← add_int64 roomy.len 1
    ok (record roomy { buf = buf; len = len })

  unfoldable pub kod_sb_to_str : KodStrBuilder → Run KodStr
  kod_sb_to_str sb = kod_str_from_bytes junk sb.buf sb.len

-- The calls that change a builder.
pub data Op : Type 0 where
  append : Bytes → Op
  append_byte : ℕ → Op
  clear : Op

module _ (junk : ℕ → ℕ) where
  unfoldable pub step : KodStrBuilder → Op → Run KodStrBuilder
  step sb (append xs) = kod_sb_append junk sb (record { buf = xs ++ 0 ∷ []; len = length xs })
  step sb (append_byte b) = kod_sb_append_byte junk sb b
  step sb clear = ok (kod_sb_clear sb)

  -- A program's calls on one builder, in order.
  unfoldable pub run : KodStrBuilder → List Op → Run KodStrBuilder
  run sb [] = ok sb
  run sb (op ∷ ops) = do next ← step sb op; run next ops
