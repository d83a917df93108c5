-- ===== src/StrBuilder/Tests.antt =====
-- A builder on small inputs, and the theorems at concrete calls.
use kodlang.Base.{
  ℕ, ◌*◌, ◌<◌, ◌≤◌, ◌≡◌, ◌⊎◌, refl, Bytes, List, [], ◌∷◌, ok, ◌>>=◌, codes, add_int64, mul_int64,
  fresh, store, memcpy, replicate,
}
use kodlang.Growth.{grow}
use kodlang.Str.{kod_str_from_bytes, kod_str_new}
use kodlang.Str.Repr.{str_of}
use kodlang.StrBuilder.{
  kod_panic, kod_sb_new, reserve_moving, kod_sb_reserve, kod_sb_append, kod_sb_append_byte,
  kod_sb_clear, kod_sb_len, kod_sb_to_str, Op, append, append_byte, clear, step, run,
}
use kodlang.StrBuilder.Cost.{Metered, account, metered, unused, cost_bound}
use kodlang.StrBuilder.Refine.{
  add_bytes, spec_step, spec_run, size_of, moves, seen, builder_refines,
}
use kodlang.StrBuilder.Valid.{limit, refused}

abbrev ones : ℕ → ℕ
ones i = 1

abbrev calls : List Op
calls =
    append (codes "gone") ∷ clear ∷ append (replicate 31 97) ∷ append_byte 354 ∷ append_byte 99 ∷ []

abbrev built : Bytes
built = codes "aaaaaaaaaaaaaaaaaaaaaaaaaaaaaaabc"

run-calls :
    (do sb ← run ones (kod_sb_new ones) calls; s ← kod_sb_to_str ones sb; seen (kod_sb_len sb) s)
    ≡ ok (33, str_of built)
unfolding run step kod_sb_new kod_sb_reserve reserve_moving kod_sb_append kod_sb_append_byte
    kod_sb_clear kod_sb_len kod_sb_to_str kod_str_from_bytes kod_str_new grow add_int64 mul_int64
    fresh store memcpy
run-calls = refl

-- A builder that reports the most bytes that it may hold takes no more.
full_panics : kod_sb_append_byte ones (record { buf = []; len = limit; cap = limit }) 7 ≡ refused
unfolding kod_sb_append_byte kod_sb_reserve reserve_moving kod_str_from_bytes kod_str_new kod_panic
    add_int64 fresh store memcpy
full_panics = refl

builder_refines_example :
    (do sb ← run ones (kod_sb_new ones) calls; s ← kod_sb_to_str ones sb; seen (kod_sb_len sb) s)
    ≡ ok (33, str_of built)
unfolding spec_run spec_step add_bytes
builder_refines_example = builder_refines ones calls

metered-calls :
    (m : Metered) × (metered ones (kod_sb_new ones) unused calls ≡ ok m) × (m.usage.abandoned ≡ 32)
unfolding metered account moves size_of step kod_sb_new kod_sb_reserve reserve_moving kod_sb_append
    kod_sb_append_byte kod_sb_clear grow add_int64 mul_int64 fresh store memcpy
metered-calls = (_, refl, refl)

cost_bound_example :
    ((metered-calls.0.usage.abandoned ≡ 0)
      ⊎ (metered-calls.0.usage.abandoned < 2 * metered-calls.0.usage.appended))
    × (metered-calls.0.usage.copied ≤ metered-calls.0.usage.abandoned)
cost_bound_example = cost_bound ones calls metered-calls.1
