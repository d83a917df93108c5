-- ===== src/Inflate/Buffers.antt =====
-- The output buffer of `kod_inflate`: it grows to one byte more than the limit at most.
use kodlang.Base.{
  Bool-cases, ℕ, ◌+◌, ◌-◌, ◌^◌, ◌<◌, ◌≤◌, ◌≡◌, inl, inr, refl, sym, ap, ◌∙◌, Bytes, ◌++◌, Bool,
  true, ok, append_assoc, fresh, memcpy, memcpy-fresh, memcpy-append, length, length-append,
  length-drop, length-fresh, drop, lt→ltb, ◌==◌, arith,
}
use kodlang.Inflate.{Out, World, roomy, grown, avail_out, ensure_room}

-- The buffer holds `done`, and is not larger than `limit + 1`.
pub record Holds (limit : ℕ) (done : Bytes) (b : Out) : Type 0 where
  pub room : Bytes
  pub split : b.bytes ≡ done ++ room
  pub len_done : b.len ≡ length done
  pub cap_all : b.cap ≡ length done + length room
  pub in_limit : length done ≤ limit
  pub cap_limit : b.cap ≤ limit + 1
  pub cap_some : 0 < b.cap

-- A full buffer that is not at the limit yet grows, and not past one byte more than the limit.
grown_bounds :
    (limit cap : ℕ)
    → 0 < cap
    → cap ≤ limit
    → limit < 2 ^ 62
    → (cap < grown limit cap) × (grown limit cap ≤ limit + 1)
unfolding grown
grown_bounds limit cap h k f = ground arith

module _ (junk : ℕ → ℕ) (gives : ℕ → Bool) (limit : ℕ) (few : limit < 2 ^ 62) where
  module _ (enough : (n : ℕ) → n ≤ limit + 1 → gives n ≡ true) where
    -- There is room for a byte more.
    pub ensure_room_lem :
        (done : Bytes) (b : Out) (w : World)
        → Holds limit done b
        → (r : Out) × (ensure_room junk gives limit b w ≡ ok (roomy r))
          × Holds limit done r
          × (length done < r.cap)
    unfolding ensure_room
    ensure_room_lem done b w h = elim (Bool-cases (b.len == b.cap)) [
      | inl full ↦
          let filled : b.cap ≡ length b.bytes =
            omega (arith, h.cap_all, ap length h.split, length-append done h.room) in
          let at_end : b.cap ≡ length done = ground (arith, full, h.len_done) in
          let n = grown limit b.cap in
          let (more, fits) =
            grown_bounds limit b.cap h.cap_some (omega (arith, at_end, h.in_limit)) few in
          let tail = drop (0 + length b.bytes) (fresh junk n) in
          let moved : memcpy (fresh junk n) 0 b.bytes 0 b.cap ≡ ok (b.bytes ++ tail) =
            ap (λ m. memcpy (fresh junk n) 0 b.bytes 0 m) filled
            ∙ memcpy-fresh junk n b.bytes (omega (arith, more, filled)) in
          (
            record b { bytes = b.bytes ++ tail; cap = n },
            rw (full, lt→ltb b.cap n more, enough n fits, moved) refl,
            record {
              room = h.room ++ tail;
              split = ap (λ z. z ++ tail) h.split ∙ append_assoc done h.room tail;
              len_done = h.len_done;
              cap_all = omega (
                arith,
                filled,
                more,
                h.cap_all,
                length-append h.room tail,
                length-drop (0 + length b.bytes) (fresh junk n),
                length-fresh junk n,
              );
              in_limit = h.in_limit;
              cap_limit = fits;
              cap_some = omega (arith, more);
            },
            omega (arith, more, at_end),
          )
      | inr open_still ↦
          (b, rw open_still refl, h, ground (arith, open_still, h.len_done, h.cap_all))
    ]

-- The room that `inflate` gets: some, and no more than there is.
pub avail_out_bounds :
    {limit : ℕ} {done : Bytes} (b : Out)
    → Holds limit done b
    → length done < b.cap
    → (0 < avail_out b) × (avail_out b ≤ b.cap - length done)
unfolding avail_out
avail_out_bounds b h k = ground (arith, h.len_done)

-- Bytes written behind those that the buffer holds.
pub write_lem :
    (limit : ℕ) (done bytes : Bytes) (b : Out)
    → Holds limit done b
    → length bytes ≤ b.cap - length done
    → (filled : Bytes) × (memcpy b.bytes b.len bytes 0 (length bytes) ≡ ok filled)
      × (length (done ++ bytes) ≤ limit
          → Holds limit (done ++ bytes) (record b { bytes = filled; len = b.len + length bytes }))
write_lem limit done bytes b h k =
    let rest = drop (length bytes) h.room in
    (
      done ++ (bytes ++ rest),
      ap (λ z. memcpy z b.len bytes 0 (length bytes)) h.split
          ∙ memcpy-append done h.room bytes b.len (length bytes) h.len_done refl
              (omega (arith, h.cap_all)),
      λ in_limit. record {
        room = rest;
        split = sym (append_assoc done bytes rest);
        len_done = omega (arith, h.len_done, length-append done bytes);
        cap_all =
            omega (arith, h.cap_all, length-append done bytes, length-drop (length bytes) h.room);
        in_limit = in_limit;
        cap_limit = h.cap_limit;
        cap_some = h.cap_some;
      },
    )
