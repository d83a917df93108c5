-- ===== src/Inflate.antt =====
-- `kod_inflate` of stdlib/compress/inflate.c, a loop around zlib's `inflate`. zlib and the C
-- library's allocator are parameters.
pub mod Decoder
pub mod Buffers
pub mod Report
pub mod Rounds
pub mod Output
mod Tests
use kodlang.Base.{
  ℕ, zero, suc, ◌+◌, ◌-◌, ◌*◌, ◌%◌, ◌^◌, Bytes, [], ◌∷◌, ◌++◌, Option, none, some, Bool, true,
  false, ◌&&◌, Run, ok, out_of_fuel, ◌>>=◌, fresh, memcpy, codes, length, take, ltb, ◌==◌,
  if◌then◌else◌,
}
use kodlang.Base.Int.{ℤ, pos, negsuc}
use kodlang.Str.{KodStr, kod_str_new, kod_str_from_bytes}

-- The results of `inflate` that the code tells apart.
pub data Rc : Type 0 where
  z_ok : Rc
  z_stream_end : Rc
  z_buf_error : Rc
  z_mem_error : Rc
  z_other : Rc

-- What a call of `inflate` leaves: its result, the bytes written at `next_out`, and the stream.
pub record Inflated (Z : Type 0) : Type 0 where
  pub rc : Rc
  pub bytes : Bytes
  pub stream : Z

-- zlib on its streams: `inflateInit2` by its window bits, the input that is set, `inflate` with
-- `avail_out`, `avail_in`, `inflateReset`, and `msg`.
pub record Zlib (Z : Type 0) : Type 0 where
  pub init : ℤ → Option Z
  pub feed : Bytes → Z → Z
  pub inflate : ℕ → Z → Inflated Z
  pub avail_in : Z → ℕ
  pub reset : Z → Option Z
  pub msg : Z → Option Bytes

-- `g_status`, `g_message` up to its NUL, and how many streams and buffers are held.
pub record World : Type 0 where
  pub g_status : ℕ
  pub g_message : Bytes
  pub streams : ℕ
  pub buffers : ℕ

-- What `failed` leaves; its result is the empty string.
unfoldable pub fails : ℕ → Bytes → World → World
fails status message w = record w { g_status = status; g_message = take 127 message }

unfoldable pub inflate_end : World → World
inflate_end w = record w { streams = w.streams - 1 }

unfoldable pub free_out : World → World
free_out w = record w { buffers = w.buffers - 1 }

-- `free(out); inflateEnd(&zs); return failed(...);`
unfoldable pub gives_up : ℕ → Bytes → World → World
gives_up status message w = fails status message (inflate_end (free_out w))

-- `out`, `len` and `cap`.
pub record Out : Type 0 where
  pub bytes : Bytes
  pub len : ℕ
  pub cap : ℕ

-- The buffer with room for a byte, or none, with what the call leaves.
pub data Room : Type 0 where
  roomy : Out → Room
  no_room : World → Room

-- What a result of `inflate` means for the loop: another round, a break with `ended` or not, or a
-- failure with its status and message.
pub data Next (Z : Type 0) : Type 0 where
  again : Z → Next Z
  stops : Bool → Next Z
  breaks : ℕ → Bytes → Next Z

-- How the loop is left: by a break, or by a return.
pub data Left : Type 0 where
  broke : Bool → Out → Left
  gone : World → Left

abbrev pub size_mod : ℕ
size_mod = 2 ^ 64

-- `size_t grown = cap * 2; if (grown > limit + 1) grown = limit + 1;`
unfoldable pub grown : ℕ → ℕ → ℕ
grown limit cap =
    let doubled = cap * 2 % size_mod in
    let most = (limit + 1) % size_mod in if ltb most doubled then most else doubled

-- `(uInt)(room > (1u << 30) ? (1u << 30) : room)`
unfoldable pub avail_out : Out → ℕ
avail_out b = let room = b.cap - b.len in if ltb (2 ^ 30) room then 2 ^ 30 else room

unfoldable pub window : ℕ → ℤ
window mode =
    let other = if mode == 1 then pos 15 else negsuc 14 in if mode == 0 then pos 31 else other

-- `gives` says which sizes `malloc` and `realloc` have memory for.
module _ (junk : ℕ → ℕ) (gives : ℕ → Bool) (limit : ℕ) where
  -- The part under `len == cap`.
  unfoldable pub ensure_room : Out → World → Run Room
  ensure_room b w =
      let size = grown limit b.cap in
      let bigger = memcpy (fresh junk size) 0 b.bytes 0 b.cap >>= λ moved.
      ok (roomy (record b { bytes = moved; cap = size })) in
      let more =
        if gives size then bigger else ok (no_room (gives_up 3 (codes "out of memory") w)) in
      let grow =
        if ltb b.cap size then more else ok (no_room (gives_up 2 (codes "output too large") w)) in
      if b.len == b.cap then grow else ok (roomy b)

unfoldable pub kod_inflate_message : (ℕ → ℕ) → World → Run KodStr
kod_inflate_message junk w = kod_str_from_bytes junk (w.g_message ++ 0 ∷ []) (length w.g_message)

-- The result with the globals and what is held.
unfoldable pub nothing : (ℕ → ℕ) → World → Run (KodStr × World)
nothing junk w = do s ← kod_str_new junk 0; ok (s, w)

-- What follows the loop; `w` is the world in which the loop was entered.
unfoldable pub finish : (ℕ → ℕ) → World → Left → Run (KodStr × World)
finish junk w (gone after) = nothing junk after
finish junk w (broke false out) =
    nothing junk (fails 1 (codes "truncated") (free_out (inflate_end w)))
finish junk w (broke true out) = do
  result ← kod_str_from_bytes junk out.bytes out.len
  ok (result, let after = free_out (inflate_end w) in record after { g_status = 0 })

module _ {Z : Type 0} (zlib : Zlib Z) where
  -- `mode` is the bit pattern of an int64_t.
  unfoldable pub next_of : ℕ → Rc → Z → Next Z
  next_of mode z_stream_end z =
      if mode == 0 && ltb 0 (zlib.avail_in z)
      then elim (zlib.reset z) [
        | none ↦ breaks 1 (codes "bad stream state")
        | some fresh_z ↦ again fresh_z
      ]
      else stops true
  next_of mode z_buf_error z = if zlib.avail_in z == 0 then stops false else again z
  next_of mode z_ok z = again z
  next_of mode z_mem_error z = breaks 3 (codes "out of memory")
  next_of mode z_other z =
      breaks 1 (elim (zlib.msg z) [ none ↦ codes "invalid data" | some text ↦ text ])

  module _ (junk : ℕ → ℕ) (gives : ℕ → Bool) (limit mode : ℕ) where
    -- `for (;;)`, on fuel. zlib writes its bytes behind the first `len` of the buffer.
    unfoldable pub inflate_loop : ℕ → Z → Out → World → Run Left
    inflate_loop zero z b w = out_of_fuel
    inflate_loop (suc fuel) z b w = ensure_room junk gives limit b w >>= λ room. elim room [
      | no_room after ↦ ok (gone after)
      | roomy r ↦
          let c = zlib.inflate (avail_out r) z in
          memcpy r.bytes r.len c.bytes 0 (length c.bytes) >>= λ filled.
          let out = record r { bytes = filled; len = r.len + length c.bytes } in
          let onward : Run Left = elim (next_of mode c.rc c.stream) [
            | again next ↦ inflate_loop fuel next out w
            | stops ended ↦ ok (broke ended out)
            | breaks status message ↦ ok (gone (gives_up status message w))
          ] in
          if ltb limit out.len then ok (gone (gives_up 2 (codes "output too large") w)) else onward
    ]

  -- The first buffer; `z` is the stream that `inflateInit2` made.
  unfoldable pub inflate_all :
      (ℕ → ℕ) → (ℕ → Bool) → ℕ → KodStr → ℕ → ℕ → Z → World → Run (KodStr × World)
  inflate_all junk gives fuel input mode limit z w =
      let cap = if ltb limit 4096 then limit + 1 else 4096 in
      let out : Out = record { bytes = fresh junk cap; len = 0; cap = cap } in
      let fed = zlib.feed (take (input.len % 2 ^ 32) input.buf) z in
      let held = record w { buffers = w.buffers + 1 } in
      let run =
        inflate_loop junk gives limit mode fuel fed out held >>= λ left. finish junk held left in
      if gives cap then run else nothing junk (fails 3 (codes "out of memory") (inflate_end w))

  unfoldable pub kod_inflate :
      (ℕ → ℕ) → (ℕ → Bool) → ℕ → KodStr → ℕ → ℕ → World → Run (KodStr × World)
  kod_inflate junk gives fuel input mode max_output w = elim (zlib.init (window mode)) [
    | none ↦ nothing junk (fails 3 (codes "out of memory") w)
    | some z ↦
        inflate_all junk gives fuel input mode max_output z (record w { streams = w.streams + 1 })
  ]
