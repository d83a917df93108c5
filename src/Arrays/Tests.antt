-- ===== src/Arrays/Tests.antt =====
-- Arrays in a small store, and the theorems at its arrays.
use kodlang.Base.{
  ℕ, ◌≡◌, refl, List, [], ◌∷◌, Option, none, some, Run, ok, ◌==◌, if◌then◌else◌, add_int64,
  mul_int64, fresh, load, store, arith,
}
use kodlang.Base.Int.{pos}
use kodlang.Growth.{grow}
use kodlang.Arrays.{
  Store, found, copy_slots, grow_array, append_slots, kod_array_concat, kod_array_slice,
}
use kodlang.Arrays.Concat.{kod_array_concat_lem}
use kodlang.Arrays.Fresh.{Made, kod_array_slice_lem}
use kodlang.Arrays.Holds.{Holds, IsValid, Changed}

abbrev zeros : ℕ → ℕ
zeros i = 0

-- One array of two elements, in a block with one slot to spare.
abbrev σ : Store
σ = record {
  headers = λ a. if a == 0 then some (record { ptr = 1; len = 2; cap = 3 }) else none;
  blocks = λ p. if p == 1 then some (7 ∷ 8 ∷ 0 ∷ []) else none;
  next = 2;
}

pair : Holds σ 0 (7 ∷ 8 ∷ [])
pair = record {
  head = record { ptr = 1; len = 2; cap = 3 };
  room = 0 ∷ [];
  at = refl;
  block = refl;
  len = refl;
  fits = omega arith;
  backed = omega arith;
}

σ-IsValid : IsValid σ
σ-IsValid = record {
  unused_header = λ p h. ground arith;
  unused_block = λ p h. ground arith;
  allotted = λ a e. ground arith;
  owned = λ a b e f g. ground arith;
}

block_of : ℕ → Run Store → Option (List ℕ)
block_of p (ok τ) = τ.blocks p
block_of p _ = none

-- An array appended to itself moves, since one spare slot is too few.
self_append : block_of 2 (kod_array_concat zeros 0 0 σ) ≡ some (7 ∷ 8 ∷ 7 ∷ 8 ∷ 0 ∷ 0 ∷ [])
unfolding block_of kod_array_concat found grow_array append_slots grow copy_slots add_int64
    mul_int64 fresh load store
self_append = refl

kod_array_concat_lem_example :
    (τ : Store) × (kod_array_concat zeros 0 0 σ ≡ ok τ) × Changed σ τ 0 (7 ∷ 8 ∷ 7 ∷ 8 ∷ [])
kod_array_concat_lem_example = kod_array_concat_lem zeros σ-IsValid pair pair (omega arith)

kod_array_slice_lem_example :
    (τ : Store) × (kod_array_slice zeros 0 (pos 1) (pos 9) σ ≡ ok (2, τ)) × Made σ τ 2 (8 ∷ [])
kod_array_slice_lem_example =
    kod_array_slice_lem zeros σ σ-IsValid 0 (7 ∷ 8 ∷ []) (pos 1) (pos 9) pair (omega arith)
