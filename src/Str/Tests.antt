-- ===== src/Str/Tests.antt =====
-- The string functions on small inputs, and the theorems at concrete strings.
use kodlang.Base.{
  ℕ, ◌≡◌, ◌↔◌, refl, Bytes, [], ◌∷◌, ok, codes, add_int64, fresh, store, load, memcpy, arith,
}
use kodlang.Base.Int.{ℤ, pos, negsuc, ◌<ℤ◌}
use kodlang.Str.{
  KodStr, offset, clamp_slice, kod_str_new, kod_str_slice, kod_str_concat, strlen,
  kod_str_from_cstr, pack_loop, kod_bytes_from_array, memcmp, kod_str_cmp,
}
use kodlang.Str.Ops.{kod_str_slice_lem}
use kodlang.Str.Order.{LexLt, kod_str_cmp_lem}
use kodlang.Str.Repr.{str_of}

abbrev ones : ℕ → ℕ
ones i = 1

abbrev word : KodStr
word = str_of (codes "hello")

slices :
    (kod_str_slice ones word (pos 1) (pos 3) ≡ ok (str_of (codes "el")))
    × (kod_str_slice ones word (negsuc 4) (pos 99) ≡ ok word)
    × (kod_str_slice ones word (pos 3) (pos 1) ≡ ok (str_of []))
unfolding kod_str_slice clamp_slice offset kod_str_new add_int64 fresh store memcpy
slices = (refl, refl, refl)

concat_runs : kod_str_concat ones word word ≡ ok (str_of (codes "hellohello"))
unfolding kod_str_concat kod_str_new add_int64 fresh store memcpy
concat_runs = refl

cstr_runs : kod_str_from_cstr ones (104 ∷ 105 ∷ 0 ∷ 7 ∷ []) ≡ ok (str_of (codes "hi"))
unfolding kod_str_from_cstr strlen kod_str_new add_int64 fresh store memcpy
cstr_runs = refl

pack_runs : kod_bytes_from_array ones (104 ∷ 361 ∷ []) 2 ≡ ok (str_of (codes "hi"))
unfolding kod_bytes_from_array pack_loop load kod_str_new add_int64 fresh store
pack_runs = refl

cmp_runs : kod_str_cmp (λ x y. 0) word (str_of (codes "help")) ≡ ok (negsuc 0)
unfolding kod_str_cmp memcmp
cmp_runs = refl

kod_str_slice_lem_example : kod_str_slice ones word (negsuc 0) (pos 3) ≡ ok (str_of (codes "hel"))
kod_str_slice_lem_example = kod_str_slice_lem ones (codes "hello") (negsuc 0) (pos 3) (omega arith)

kod_str_cmp_lem_example :
    (z : ℤ) × (kod_str_cmp (λ x y. 0) (str_of (1 ∷ [])) (str_of (1 ∷ 2 ∷ [])) ≡ ok z)
    × ((z <ℤ pos 0) ↔ LexLt (1 ∷ []) (1 ∷ 2 ∷ []))
    × ((z ≡ pos 0) ↔ ◌≡◌ {A = Bytes} (1 ∷ []) (1 ∷ 2 ∷ []))
    × ((pos 0 <ℤ z) ↔ LexLt (1 ∷ 2 ∷ []) (1 ∷ []))
kod_str_cmp_lem_example = kod_str_cmp_lem (λ x y. 0) (1 ∷ []) (1 ∷ 2 ∷ [])
