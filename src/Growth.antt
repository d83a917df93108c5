-- ===== src/Growth.antt =====
-- The doubling of a capacity, `while (new_cap < need) new_cap *= 2`, which `kod_sb_reserve`,
-- `append_to_buf` and `kod_array_concat` of stdlib/runtime.c share.
use kodlang.Base.{
  ℕ, zero, suc, ◌+◌, ◌*◌, ◌^◌, ◌<◌, ◌≤◌, ◌≡◌, ◌⊎◌, inl, inr, refl, Run, ok, out_of_fuel, ◌>>=◌,
  mul_int64, mul_int64_lem, ltb, if◌then◌else◌, lt→ltb, le→ltb, arith,
}
use native.Mathlib.Decide.{dec_lt}

-- A round adds one at least, so `need` rounds are enough.
unfoldable pub grow : ℕ → ℕ → ℕ → Run ℕ
grow zero cap need = if ltb cap need then out_of_fuel else ok cap
grow (suc fuel) cap need =
    let more = (do next ← mul_int64 cap 2; grow fuel next need) in
    if ltb cap need then more else ok cap

-- What the loop may return from `cap`.
pub record Grown (cap need new_cap : ℕ) : Type 0 where
  pub enough : need ≤ new_cap
  pub kept : cap ≤ new_cap
  pub tight : (new_cap ≡ cap) ⊎ (2 * cap ≤ new_cap) × (new_cap < 2 * need)

-- From a positive capacity the loop ends within `need` rounds, with no overflow.
pub grow_lem :
    (fuel cap need : ℕ)
    → 0 < cap
    → need ≤ 2 ^ 62
    → need ≤ fuel + cap
    → (c : ℕ) × (grow fuel cap need ≡ ok c) × Grown cap need c
unfolding grow
grow_lem zero cap need positive small enough = (
  cap,
  rw (le→ltb cap need (omega arith)),
  record { enough = omega arith; kept = omega arith; tight = inl refl },
)
grow_lem (suc fuel) cap need positive small enough = elim (dec_lt cap need) [
  | yes h ↦
      let (c, e, g) = grow_lem fuel (cap * 2) need (omega arith) small (omega arith) in
      (
        c,
        rw (lt→ltb cap need h, mul_int64_lem cap 2 (omega arith)) e,
        record { enough = g.enough; kept = omega (arith, g.kept); tight = tight_step h g.tight },
      )
  | no h ↦ (
    cap,
    rw (le→ltb cap need (omega arith)),
    record { enough = omega arith; kept = omega arith; tight = inl refl },
  )
]
  where
    tight_step :
        {c : ℕ}
        → cap < need
        → (c ≡ cap * 2) ⊎ (2 * (cap * 2) ≤ c) × (c < 2 * need)
        → (c ≡ cap) ⊎ (2 * cap ≤ c) × (c < 2 * need)
    tight_step h (inl e) = inr (omega arith)
    tight_step h (inr l) = inr (omega arith)
