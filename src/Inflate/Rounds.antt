-- ===== src/Inflate/Rounds.antt =====
-- The rounds of the loop of `kod_inflate`.
use kodlang.Base.{
  Bool-cases, ℕ, zero, suc, ◌+◌, ◌^◌, ◌<◌, ◌≤◌, ◌≡◌, inl, inr, refl, sym, ap, ap₂, ◌∙◌, Bytes, ◌++◌,
  Option, none, some, Bool, true, false, Run, ok, ◌>>=◌, memcpy, codes, length, length-append,
  append_assoc, ltb, ltb→lt, ◌==◌, ◌&&◌, if◌then◌else◌, arith,
}
use kodlang.Inflate.{
  Rc, z_ok, z_stream_end, z_buf_error, z_mem_error, z_other, Zlib, World, gives_up, Out, roomy,
  Next, again, stops, breaks, Left, broke, gone, avail_out, ensure_room, next_of, inflate_loop,
  finish,
}
use kodlang.Inflate.Decoder.{
  Means-prefix, Fate, invalid, no_memory, unusable, error_text, View, GoesOn, Ends, Resets, Means,
  Decodes,
}
use kodlang.Inflate.Buffers.{Holds, ensure_room_lem, avail_out_bounds, write_lem}
use kodlang.Inflate.Report.{
  refused, of_fate, judge, report, holding, refuse_lem, truncated_lem, output_lem, within, past,
}

module _ {Z : Type 0} (zlib : Zlib Z) (v : View Z) (junk : ℕ → ℕ) (gives : ℕ → Bool)
    (limit mode : ℕ) (few : limit < 2 ^ 62) (w : World) where
  -- What is reported for a stream `z` behind the bytes `done`.
  abbrev pub Verdicts : Bytes → Z → Run Left → Type 0
  Verdicts done z r =
      (r >>= λ left. finish junk (holding w) left)
      ≡ ok (report (judge limit (done ++ v.text z) (v.fate z)) w)

  abbrev onward : ℕ → Out → Next Z → Run Left
  onward fuel out next = elim next [
    | again z' ↦ inflate_loop zlib junk gives limit mode fuel z' out (holding w)
    | stops ended ↦ ok (broke ended out)
    | breaks status message ↦ ok (gone (gives_up status message (holding w)))
  ]

  -- The bytes of a call within the limit, and then an end.
  ends_lem :
      (done bytes : Bytes) {z : Z} {fate : Fate}
      → Ends v z bytes fate
      → length (done ++ bytes) ≤ limit
      → judge limit (done ++ v.text z) (v.fate z) ≡ of_fate (done ++ bytes) fate
  ends_lem done bytes {fate = fate} (t, f) h =
      ap₂ (λ b g. judge limit (done ++ b) g) t f ∙ within limit (done ++ bytes) fate h

  goes_on_lem :
      (done bytes : Bytes) {z next : Z}
      → GoesOn v z bytes next
      → judge limit ((done ++ bytes) ++ v.text next) (v.fate next)
        ≡ judge limit (done ++ v.text z) (v.fate z)
  goes_on_lem done bytes {next = next} (t, f, c) =
      ap (λ b. judge limit b (v.fate next)) (append_assoc done bytes (v.text next))
      ∙ sym (ap₂ (λ b g. judge limit (done ++ b) g) t f)

  -- One call has written `bytes` to `out`; the stream goes on, ends or breaks.
  module _ (fuel : ℕ) (done bytes : Bytes) (z : Z) (out : Out) (h : Holds limit (done ++ bytes) out)
      (ih : (z' : Z)
        → v.calls z' < v.calls z
        → Verdicts
            (done ++ bytes)
            z'
            (inflate_loop zlib junk gives limit mode fuel z' out (holding w))) where
    again_lem : (next : Z) → GoesOn v z bytes next → Verdicts done z (onward fuel out (again next))
    again_lem next (t, f, c) =
        ih next c ∙ ap (λ j. ok (report j w)) (goes_on_lem done bytes (t, f, c))

    breaks_lem :
        (status : ℕ) (message : Bytes) {fate : Fate}
        → of_fate (done ++ bytes) fate ≡ refused status message
        → Ends v z bytes fate
        → Verdicts done z (onward fuel out (breaks status message))
    breaks_lem status message f e =
        refuse_lem junk w status message
        ∙ ap (λ j. ok (report j w)) (sym (ends_lem done bytes e h.in_limit ∙ f))

    reset_lem :
        (r : Option Z)
        → Resets v z bytes r
        → Verdicts done z (
            onward fuel out (elim r [
              | none ↦ breaks 1 (codes "bad stream state")
              | some fresh_z ↦ again fresh_z
            ]))
    reset_lem none e = breaks_lem 1 (codes "bad stream state") {fate = unusable} refl e
    reset_lem (some next) g = again_lem next g

    other_lem :
        (m : Option Bytes)
        → Ends v z bytes (invalid (error_text m))
        → Verdicts done z
            (onward fuel out (breaks 1 (elim m [ none ↦ codes "invalid data" | some text ↦ text ])))
    other_lem none e =
        breaks_lem 1 (codes "invalid data") {fate = invalid (codes "invalid data")} refl e
    other_lem (some text) e = breaks_lem 1 text {fate = invalid text} refl e

    onward_lem :
        (rc : Rc) (next : Z)
        → Means v zlib mode z bytes next rc
        → Verdicts done z (onward fuel out (next_of zlib mode rc next))
    unfolding next_of
    onward_lem z_ok next g = again_lem next g
    onward_lem z_stream_end next (inl (m, a, r)) =
        let member : (mode == 0 && ltb 0 (zlib.avail_in next)) ≡ true = ground arith in
        rw member (reset_lem (zlib.reset next) r)
    onward_lem z_stream_end next (inr (m, e)) =
        let last : (mode == 0 && ltb 0 (zlib.avail_in next)) ≡ false = ground arith in
        rw last (
          output_lem junk w (done ++ bytes) out few h
          ∙ ap (λ j. ok (report j w)) (sym (ends_lem done bytes e h.in_limit)))
    onward_lem z_buf_error next (inl (a, e)) =
        let used : (zlib.avail_in next == 0) ≡ true = ground arith in
        rw used (
          truncated_lem junk w out
          ∙ ap (λ j. ok (report j w)) (sym (ends_lem done bytes e h.in_limit)))
    onward_lem z_buf_error next (inr (a, g)) =
        let left : (zlib.avail_in next == 0) ≡ false = ground arith in rw left (again_lem next g)
    onward_lem z_mem_error next e = breaks_lem 3 (codes "out of memory") {fate = no_memory} refl e
    onward_lem z_other next e = other_lem (zlib.msg next) e

  -- A round with a buffer that has room.
  abbrev round : ℕ → Z → Out → Run Left
  round fuel z r =
      let c = zlib.inflate (avail_out r) z in
      memcpy r.bytes r.len c.bytes 0 (length c.bytes) >>= λ filled.
      let out = record r { bytes = filled; len = r.len + length c.bytes } in
      if ltb limit out.len
      then ok (gone (gives_up 2 (codes "output too large") (holding w)))
      else onward fuel out (next_of zlib mode c.rc c.stream)

  inflate_loop-round :
      (fuel : ℕ) (z : Z) (b : Out) {r : Out}
      → ensure_room junk gives limit b (holding w) ≡ ok (roomy r)
      → inflate_loop zlib junk gives limit mode (suc fuel) z b (holding w) ≡ round fuel z r
  unfolding inflate_loop
  inflate_loop-round fuel z b e = rw e refl

  module _ (laws : Decodes v zlib mode) (enough : (n : ℕ) → n ≤ limit + 1 → gives n ≡ true) where
    round_lem :
        (fuel : ℕ) (done : Bytes) (z : Z) (r : Out)
        → Holds limit done r
        → length done < r.cap
        → ((done' : Bytes) (z' : Z) (b : Out)
            → Holds limit done' b
            → v.calls z' < v.calls z
            → Verdicts done' z' (inflate_loop zlib junk gives limit mode fuel z' b (holding w)))
        → Verdicts done z (round fuel z r)
    round_lem fuel done z r held some_room ih =
        let (some_asked, fits) = avail_out_bounds r held some_room in
        let c = zlib.inflate (avail_out r) z in
        let (short, m) = laws.step (avail_out r) z some_asked in
        let (filled, f, keep) = write_lem limit done c.bytes r held (omega (arith, short, fits)) in
        let out : Out = record r { bytes = filled; len = r.len + length c.bytes } in
        let n : r.len + length c.bytes ≡ length (done ++ c.bytes) =
          omega (arith, held.len_done, length-append done c.bytes) in
        elim (Bool-cases (ltb limit (r.len + length c.bytes))) [
          | inl over ↦
              let (more, t) = Means-prefix v zlib mode c.rc z c.stream c.bytes m in
              let long : limit < length (done ++ v.text z) = omega (
                arith,
                ltb→lt limit (r.len + length c.bytes) over,
                n,
                length-append done c.bytes,
                ap length t,
                length-append c.bytes more,
                length-append done (v.text z),
              ) in
              rw (f, over)
                (refuse_lem junk w 2 (codes "output too large")
                  ∙ ap (λ j. ok (report j w)) (sym (past limit (done ++ v.text z) (v.fate z) long)))
          | inr under ↦
              let short_all : length (done ++ c.bytes) ≤ limit = ground (arith, under, n) in
              rw (f, under)
                (onward_lem fuel done c.bytes z out (keep short_all)
                  (λ z' k. ih (done ++ c.bytes) z' out (keep short_all) k) c.rc c.stream m)
        ]

    pub inflate_loop_lem :
        (fuel : ℕ) (done : Bytes) (z : Z) (b : Out)
        → Holds limit done b
        → v.calls z < fuel
        → Verdicts done z (inflate_loop zlib junk gives limit mode fuel z b (holding w))
    inflate_loop_lem zero done z b h c = absurd (omega arith)
    inflate_loop_lem (suc fuel) done z b h c =
        let (r, e, held, some_room) =
          ensure_room_lem junk gives limit few enough done b (holding w) h in
        ap (λ l. l >>= λ left. finish junk (holding w) left) (inflate_loop-round fuel z b e)
        ∙ round_lem fuel done z r held some_room
            (λ d z' b' h' k. inflate_loop_lem fuel d z' b' h' (omega (arith, k, c)))
