-- ===== src/Arrays/Concat.antt =====
-- `kod_array_concat` of stdlib/runtime.c, `lhs += rhs`.
use native.Mathlib.Decide.{dec_lt, ℕ_discrete}
use kodlang.Base.{
  ℕ, ◌+◌, ◌^◌, ◌<◌, ◌≡◌, sym, ap₂, ◌∙◌, subst, List, ◌++◌, ok, length, add_int64, add_int64_lem,
  lt→ltb, le→ltb, arith,
}
use kodlang.Arrays.{Store, found, kod_array_concat}
use kodlang.Arrays.Append.{appended, appended-Changed, append_slots_lem}
use kodlang.Arrays.Holds.{Holds, IsValid, Changed, Holds-unique}
use kodlang.Arrays.Regrow.{grow_array_lem}

module _ (junk : ℕ → ℕ) {σ : Store} {lhs rhs : ℕ} {xs ys : List ℕ} where
  -- `rhs` still holds its elements when `lhs` has moved, also if it is `lhs`.
  still : {σ' : Store} → Holds σ lhs xs → Holds σ rhs ys → Changed σ σ' lhs xs → Holds σ' rhs ys
  still {σ'} l r d = elim (ℕ_discrete rhs lhs) [
    | yes e ↦
        subst (λ a. Holds σ' a ys) (sym e)
          (subst (Holds σ' lhs) (Holds-unique l (subst (λ a. Holds σ a ys) e r)) d.holds)
    | no ne ↦ d.others rhs ys ne r
  ]

  total_lem :
      (l : Holds σ lhs xs) (r : Holds σ rhs ys)
      → length xs + length ys < 2 ^ 58
      → add_int64 l.head.len r.head.len ≡ ok (length xs + length ys)
  total_lem l r h = ap₂ add_int64 l.len r.len ∙ add_int64_lem (length xs) (length ys) (omega arith)

  -- In a valid store, `lhs += rhs` succeeds, with no access outside a block: `lhs`, seen through
  -- every name, holds its elements and then those of `rhs` (its own, if both are one array), and
  -- every other array holds what it held, for arrays that together have fewer than 2 ^ 58 elements.
  pub kod_array_concat_lem :
      IsValid σ
      → Holds σ lhs xs
      → Holds σ rhs ys
      → length xs + length ys < 2 ^ 58
      → (σ' : Store) × (kod_array_concat junk lhs rhs σ ≡ ok σ') × Changed σ σ' lhs (xs ++ ys)
  unfolding kod_array_concat found
  kod_array_concat_lem v l r h = elim (dec_lt l.head.cap (length xs + length ys)) [
    | yes less ↦
        let (σ₁, e, d, room) = grow_array_lem junk v l (length xs + length ys) less h in
        let r₁ = still l r d in
        let d₂ = appended-Changed d.valid d.holds ys room in
        (
          appended d.valid d.holds ys,
          rw (
            l.at,
            r.at,
            total_lem l r h,
            lt→ltb l.head.cap (length xs + length ys) less,
            e,
            append_slots_lem d.valid d.holds r₁ room,
          ),
          record {
            valid = d₂.valid;
            holds = d₂.holds;
            others = λ a zs ne k. d₂.others a zs ne (d.others a zs ne k);
          },
        )
    | no fits ↦ (
      appended v l ys,
      rw (
        l.at,
        r.at,
        total_lem l r h,
        le→ltb l.head.cap (length xs + length ys) (omega arith),
        append_slots_lem v l r (omega arith),
      ),
      appended-Changed v l ys (omega arith),
    )
  ]
