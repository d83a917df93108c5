-- ===== src/StrBuilder/Valid.antt =====
-- The invariant of a builder, and what `kod_sb_reserve` does to one.
use native.Mathlib.Decide.{dec_le}
use kodlang.Base.{
  ℕ, ◌+◌, ◌-◌, true, false, ◌*◌, ◌/◌, ◌^◌, ◌<◌, ◌≤◌, ◌≡◌, ◌⊎◌, inl, inr, refl, sym, ◌∙◌, Bytes, [],
  ◌++◌, Run, ok, int64_max, codes, add_int64_lem, fresh, length, length-append, length-take,
  length-drop, length-fresh, memcpy_lem, panicked, take, drop, take-append, le→leb, lt→leb, arith,
}
use kodlang.Base.Int.{ltb_ℤ, sub_ℕ, pos}
use kodlang.Growth.{Grown, grow_lem}
use kodlang.Str.Ops.{kod_str_from_bytes_lem}
use kodlang.StrBuilder.{
  KodStrBuilder, kod_panic, too_large, kod_sb_new, Moved, reserve_moving, kod_sb_reserve,
}

-- `INT64_MAX / 4`, the most bytes that a builder holds.
abbrev pub limit : ℕ
limit = 2 ^ 61 - 1

pub record IsValid (sb : KodStrBuilder) : Type 0 where
  pub block : length sb.buf ≡ sb.cap
  pub within : sb.len ≤ sb.cap
  pub started : 32 ≤ sb.cap
  pub bounded : sb.cap < 2 ^ 62
  pub below : sb.len ≤ limit

abbrev pub contents : KodStrBuilder → Bytes
contents sb = take sb.len sb.buf

-- The message on stderr when a builder would grow past the limit.
abbrev pub refused {ℓ} : {A : Type ℓ} → Run A
refused = panicked (codes "panic: string builder is too large\n")

-- The test of `kod_sb_reserve`, in both outcomes.
passes :
    (len extra : ℕ)
    → limit < len + extra
    → len ≤ limit
    → ltb_ℤ (sub_ℕ (int64_max / 4) len) (pos extra) ≡ true
passes len extra h v = ground arith

fails :
    (len extra : ℕ) → len + extra ≤ limit → ltb_ℤ (sub_ℕ (int64_max / 4) len) (pos extra) ≡ false
fails len extra h = ground arith

-- How far a call moved the capacity, to hold `used` bytes: it doubled at least, and not further
-- than it had to.
abbrev pub CapStep : KodStrBuilder → ℕ → KodStrBuilder → Type 0
CapStep sb used sb' = (sb'.cap ≡ sb.cap) ⊎ (2 * sb.cap ≤ sb'.cap) × (sb'.cap < 2 * used)

-- What `kod_sb_reserve` leaves: the same bytes, with room for `extra` more.
pub record Reserved (sb : KodStrBuilder) (extra : ℕ) (sb' : KodStrBuilder) : Type 0 where
  pub valid : IsValid sb'
  pub len : sb'.len ≡ sb.len
  pub bytes : contents sb' ≡ contents sb
  pub room : sb.len + extra ≤ sb'.cap
  pub cap : CapStep sb (sb.len + extra) sb'

-- The cost of a call that took the capacity to `c`: nothing, or the old buffer, and then the
-- capacity grew.
abbrev pub Spends : KodStrBuilder → ℕ → Moved → Type 0
Spends sb c m =
    (m.abandoned ≡ 0) × (m.copied ≡ 0) ⊎ (m.abandoned ≡ sb.cap) × (m.copied ≡ sb.len) × (sb.cap < c)

tight-lt : {cap need c : ℕ} → Grown cap need c → cap < need → (2 * cap ≤ c) × (c < 2 * need)
tight-lt g h = omega (arith, g.tight, g.enough)

module _ (junk : ℕ → ℕ) where
  pub kod_sb_new-IsValid : IsValid (kod_sb_new junk)
  unfolding kod_sb_new
  kod_sb_new-IsValid = record {
    block = length-fresh junk 32;
    within = omega arith;
    started = omega arith;
    bounded = omega arith;
    below = omega arith;
  }

  pub reserve-refused :
      (sb : KodStrBuilder) (extra : ℕ)
      → limit < sb.len + extra
      → sb.len ≤ limit
      → kod_sb_reserve junk sb extra ≡ refused
  unfolding kod_sb_reserve reserve_moving kod_panic
  reserve-refused sb extra h v =
      rw (passes sb.len extra h v, kod_str_from_bytes_lem junk too_large [] (omega arith))

  -- The builder after a move into a block of `c` bytes.
  moved : KodStrBuilder → ℕ → KodStrBuilder
  moved sb c = record sb { buf = take sb.len sb.buf ++ drop (0 + sb.len) (fresh junk c); cap = c }

  moved-Reserved :
      (sb : KodStrBuilder) (extra c : ℕ)
      → IsValid sb
      → sb.len + extra ≤ limit
      → sb.cap < sb.len + extra
      → Grown sb.cap (sb.len + extra) c
      → Reserved sb extra (moved sb c)
  unfolding moved
  moved-Reserved sb extra c v h more g =
      let used : length (take sb.len sb.buf) ≡ sb.len = length-take sb.len sb.buf ∙ omega arith in
      record {
        valid = record {
          block = omega (
            arith,
            length-append (take sb.len sb.buf) (drop (0 + sb.len) (fresh junk c)),
            length-drop (0 + sb.len) (fresh junk c),
            length-fresh junk c,
            g.kept,
          );
          within = omega (arith, g.kept);
          started = omega (arith, g.kept);
          bounded = omega (arith, g.tight);
          below = omega arith;
        };
        len = refl;
        bytes =
            take-append sb.len (take sb.len sb.buf) (drop (0 + sb.len) (fresh junk c)) (sym used);
        room = g.enough;
        cap = inr (tight-lt g more);
      }

  pub reserve_moving_lem :
      (sb : KodStrBuilder) (extra : ℕ)
      → IsValid sb
      → sb.len + extra ≤ limit
      → (m : Moved) × (reserve_moving junk sb extra ≡ ok m)
        × Reserved sb extra m.builder
        × Spends sb m.builder.cap m
  unfolding reserve_moving moved
  reserve_moving_lem sb extra v h = elim (dec_le (sb.len + extra) sb.cap) [
    | yes fits ↦ (
      record { builder = sb; abandoned = 0; copied = 0 },
      rw (
        fails sb.len extra h,
        add_int64_lem sb.len extra (omega arith),
        le→leb (sb.len + extra) sb.cap fits,
      ),
      record { valid = v; len = refl; bytes = refl; room = fits; cap = inl refl },
      inl (refl, refl),
    )
    | no more ↦
        let (c, e, g) =
          grow_lem (sb.len + extra) sb.cap (sb.len + extra) (omega arith) (omega arith)
            (omega arith) in
        (
          record { builder = moved sb c; abandoned = sb.cap; copied = sb.len },
          rw (
            fails sb.len extra h,
            add_int64_lem sb.len extra (omega arith),
            lt→leb (sb.len + extra) sb.cap (omega arith),
            e,
            memcpy_lem (fresh junk c) 0 sb.buf 0 sb.len (omega (arith, length-fresh junk c, g.kept))
                (omega arith),
          ),
          moved-Reserved sb extra c v h (omega arith) g,
          inr (refl, refl, omega (arith, g.enough)),
        )
  ]
