-- ===== src/Inflate/Report.antt =====
-- What `kod_inflate` reports of a stream, and what its ways out give back.
use kodlang.Base.{
  ℕ, ◌+◌, ◌-◌, ◌^◌, ◌<◌, ◌≤◌, ◌≡◌, refl, ap, ap₂, ◌∙◌, Bytes, [], true, false, ok, fresh, codes,
  length, take, ltb, lt→ltb, le→ltb, if◌then◌else◌, arith,
}
use kodlang.Str.{KodStr, kod_str_from_bytes}
use kodlang.Str.Repr.{str_of, kod_str_new_lem}
use kodlang.Str.Ops.{kod_str_from_bytes_lem}
use kodlang.Inflate.{
  World, fails, inflate_end, free_out, gives_up, Out, broke, gone, nothing, finish,
}
use kodlang.Inflate.Decoder.{Fate, complete, cut_short, invalid, no_memory, unusable}
use kodlang.Inflate.Buffers.{Holds}

-- The output, or a status with its message.
pub data Verdict : Type 0 where
  output : Bytes → Verdict
  refused : ℕ → Bytes → Verdict

abbrev pub of_fate : Bytes → Fate → Verdict
of_fate text complete = output text
of_fate text cut_short = refused 1 (codes "truncated")
of_fate text (invalid message) = refused 1 message
of_fate text no_memory = refused 3 (codes "out of memory")
of_fate text unusable = refused 1 (codes "bad stream state")

-- A stream with more bytes than the limit is refused for that, however it ends.
abbrev pub judge : ℕ → Bytes → Fate → Verdict
judge limit text fate =
    if ltb limit (length text) then refused 2 (codes "output too large") else of_fate text fate

abbrev pub report : Verdict → World → KodStr × World
report (output text) w = (str_of text, record w { g_status = 0 })
report (refused status message) w =
    (str_of [], record w { g_status = status; g_message = take 127 message })

-- With one stream and one buffer more.
abbrev pub holding : World → World
holding w = record w { streams = w.streams + 1; buffers = w.buffers + 1 }

given_back : (n : ℕ) → n + 1 - 1 ≡ n
given_back n = omega arith

pub nothing_lem : (junk : ℕ → ℕ) (w : World) → nothing junk w ≡ ok (str_of [], w)
unfolding nothing
nothing_lem junk w = rw (kod_str_new_lem junk 0 (omega arith)) (unfold fresh in refl)

gives_up_lem :
    (status : ℕ) (message : Bytes) (w : World)
    → gives_up status message (holding w)
      ≡ record w { g_status = status; g_message = take 127 message }
unfolding gives_up fails inflate_end free_out
gives_up_lem status message w =
    ap₂
      (λ a b. record { g_status = status; g_message = take 127 message; streams = a; buffers = b })
      (given_back w.streams) (given_back w.buffers)

module _ (junk : ℕ → ℕ) (w : World) where
  pub refuse_lem :
      (status : ℕ) (message : Bytes)
      → finish junk (holding w) (gone (gives_up status message (holding w)))
        ≡ ok (report (refused status message) w)
  unfolding finish
  refuse_lem status message =
      nothing_lem junk (gives_up status message (holding w))
      ∙ ap (λ u. ok (str_of [], u)) (gives_up_lem status message w)

  pub truncated_lem :
      (out : Out)
      → finish junk (holding w) (broke false out) ≡ ok (report (refused 1 (codes "truncated")) w)
  unfolding finish fails inflate_end free_out
  truncated_lem out =
      nothing_lem junk (fails 1 (codes "truncated") (free_out (inflate_end (holding w))))
      ∙ ap₂
          (λ a b. ok (
            str_of [],
            record { g_status = 1; g_message = codes "truncated"; streams = a; buffers = b },
          ))
          (given_back w.streams) (given_back w.buffers)

  pub output_lem :
      {limit : ℕ} (text : Bytes) (out : Out)
      → limit < 2 ^ 62
      → Holds limit text out
      → finish junk (holding w) (broke true out) ≡ ok (report (output text) w)
  unfolding finish inflate_end free_out
  output_lem text out few h =
      let copied : kod_str_from_bytes junk out.bytes out.len ≡ ok (str_of text) =
        ap₂ (λ b m. kod_str_from_bytes junk b m) h.split h.len_done
        ∙ kod_str_from_bytes_lem junk text h.room (omega (arith, few, h.in_limit)) in
      rw copied (
        ap₂
          (λ a b. ok (
            str_of text,
            record { g_status = 0; g_message = w.g_message; streams = a; buffers = b },
          ))
          (given_back w.streams) (given_back w.buffers))

pub within :
    (limit : ℕ) (text : Bytes) (fate : Fate)
    → length text ≤ limit
    → judge limit text fate ≡ of_fate text fate
within limit text fate h = rw (le→ltb limit (length text) h) refl

pub past :
    (limit : ℕ) (text : Bytes) (fate : Fate)
    → limit < length text
    → judge limit text fate ≡ refused 2 (codes "output too large")
past limit text fate h = rw (lt→ltb limit (length text) h) refl
