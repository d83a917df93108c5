-- ===== src/Inflate/Tests.antt =====
-- A decoder that copies its input, and the theorem at it.
use kodlang.Base.{
  ℕ, ◌<◌, ◌≤◌, ◌≡◌, inl, inr, refl, sym, Bytes, [], none, some, true, Bool-cases, ok, codes, take,
  drop, length, length-take, length-drop, take-append-drop, leb, if◌then◌else◌, arith,
}
use kodlang.Str.Repr.{str_of}
use kodlang.Inflate.{z_ok, z_stream_end, Inflated, Zlib, World, kod_inflate}
use kodlang.Inflate.Decoder.{complete, View, Means, Decodes}
use kodlang.Inflate.Output.{kod_inflate_lem}
use kodlang.Inflate.Report.{judge, report}

abbrev copies : ℕ → Bytes → Inflated Bytes
copies room z =
    if leb (length z) room
    then record { rc = z_stream_end; bytes = z; stream = [] }
    else record { rc = z_ok; bytes = take room z; stream = drop room z }

abbrev copier : Zlib Bytes
copier = record {
  init = λ bits. some [];
  feed = λ bytes z. bytes;
  inflate = copies;
  avail_in = length;
  reset = λ z. some z;
  msg = λ z. none;
}

abbrev view : View Bytes
view = record { text = λ z. z; fate = λ z. complete; calls = length }

abbrev GoodStep : ℕ → Bytes → Inflated Bytes → Type 0
GoodStep room z c = (length c.bytes ≤ room) × Means view copier 1 z c.bytes c.stream c.rc

copies-GoodStep : (room : ℕ) (z : Bytes) → 0 < room → GoodStep room z (copies room z)
copies-GoodStep room z h = elim (Bool-cases (leb (length z) room)) [
  | inl e ↦ rw e (ground (arith, e), inr (inr refl, (refl, refl)))
  | inr e ↦
      let long : room < length z = ground (arith, e) in
      rw e (
        omega (arith, length-take room z),
        (sym (take-append-drop room z), refl, omega (arith, length-drop room z, long, h)),
      )
]

copier-Decodes : Decodes view copier 1
copier-Decodes = record { step = copies-GoodStep }

abbrev zeros : ℕ → ℕ
zeros i = 0

abbrev begin : World
begin = record { g_status = 9; g_message = []; streams = 0; buffers = 0 }

kod_inflate_lem_example :
    kod_inflate copier zeros (λ n. true) 9 (str_of (codes "abcd")) 1 3 begin
    ≡ ok (report (judge 3 (codes "abcd") complete) begin)
kod_inflate_lem_example =
    kod_inflate_lem copier view zeros (λ n. true) 3 1 (omega arith) begin copier-Decodes
      (λ n h. refl) 9 (codes "abcd") [] refl (omega arith) (omega arith)
