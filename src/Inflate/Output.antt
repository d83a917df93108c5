-- ===== src/Inflate/Output.antt =====
-- What `kod_inflate` returns, for any stream.
use kodlang.Base.{
  ℕ, ◌+◌, ◌^◌, ◌%◌, ◌<◌, ◌≤◌, ◌≡◌, refl, ap, ◌∙◌, Bytes, [], ◌∷◌, ◌++◌, some, Bool, true, ok, fresh,
  length, length-fresh, take, take-append, ltb, if◌then◌else◌, arith,
}
use kodlang.Str.Repr.{str_of}
use kodlang.Inflate.{Zlib, World, window, inflate_all, kod_inflate}
use kodlang.Inflate.Decoder.{View, Decodes}
use kodlang.Inflate.Buffers.{Holds}
use kodlang.Inflate.Report.{judge, report}
use kodlang.Inflate.Rounds.{inflate_loop_lem}

module _ {Z : Type 0} (zlib : Zlib Z) (v : View Z) (junk : ℕ → ℕ) (gives : ℕ → Bool)
    (limit mode : ℕ) (few : limit < 2 ^ 62) (w : World) where
  module _ (laws : Decodes v zlib mode) (enough : (n : ℕ) → n ≤ limit + 1 → gives n ≡ true) where
    -- The buffer that the loop starts with.
    first_Holds :
        let cap = if ltb limit 4096 then limit + 1 else 4096 in
        Holds limit [] (record { bytes = fresh junk cap; len = 0; cap = cap }) × (cap ≤ limit + 1)
    first_Holds =
        let cap = if ltb limit 4096 then limit + 1 else 4096 in
        let bounds : (0 < cap) × (cap ≤ limit + 1) = ground arith in
        (
          record {
            room = fresh junk cap;
            split = refl;
            len_done = refl;
            cap_all = omega (arith, length-fresh junk cap);
            in_limit = omega arith;
            cap_limit = bounds.1;
            cap_some = bounds.0;
          },
          bounds.1,
        )

    inflate_all_lem :
        (fuel : ℕ) (bytes : Bytes) (z : Z)
        → length bytes < 2 ^ 32
        → let fed = zlib.feed bytes z in
          v.calls fed < fuel
          → inflate_all zlib junk gives fuel
              (str_of bytes)
              mode
              limit
              z
              (record w { streams = w.streams + 1 })
            ≡ ok (report (judge limit (v.text fed) (v.fate fed)) w)
    unfolding inflate_all
    inflate_all_lem fuel bytes z short enough_fuel =
        let whole : take (length bytes % 2 ^ 32) (bytes ++ 0 ∷ []) ≡ bytes =
          ap (λ n. take n (bytes ++ 0 ∷ [])) {x = length bytes % 2 ^ 32} {y = length bytes}
            (omega arith)
          ∙ take-append (length bytes) bytes (0 ∷ []) refl in
        let (start, fits) = first_Holds in
        rw (enough _ fits, whole)
          (inflate_loop_lem zlib v junk gives limit mode few w laws enough fuel []
            (zlib.feed bytes z) _ start enough_fuel)

    -- kod_inflate returns, on an input of fewer than 2 ^ 32 bytes and with a limit under 2 ^ 62,
    -- where zlib keeps what is documented of its streams, the stream can be made, and there is
    -- memory for every buffer up to one byte more than the limit. If the text that the input stands
    -- for is complete and no longer than the limit, the result is that text, with status 0. If it
    -- is longer the result is empty, with status 2. If it is not complete the result is empty, with
    -- status 1 where the input is cut short or invalid or zlib cannot go on to the next member, and
    -- status 3 where zlib lacks memory. As many streams and buffers are held afterwards as before,
    -- and no access is outside the buffer.
    pub kod_inflate_lem :
        (fuel : ℕ) (bytes : Bytes) (z : Z)
        → zlib.init (window mode) ≡ some z
        → length bytes < 2 ^ 32
        → let fed = zlib.feed bytes z in
          v.calls fed < fuel
          → kod_inflate zlib junk gives fuel (str_of bytes) mode limit w
            ≡ ok (report (judge limit (v.text fed) (v.fate fed)) w)
    unfolding kod_inflate inflate_all
    kod_inflate_lem fuel bytes z made short enough_fuel =
        rw (made, kod_inflate) (inflate_all_lem fuel bytes z short enough_fuel)
