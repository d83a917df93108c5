-- ===== src/Arrays/Fresh.antt =====
-- The functions of stdlib/runtime.c that make a new array: `kod_array_slice`, `kod_array_copy` and
-- `kod_array_concat_new`.
use kodlang.Base.{
  append_assoc, take-drop-append, subst, ℕ, ◌+◌, ◌-◌, ◌^◌, ◌≤◌, ◌<◌, ◌≡◌, refl, sym, ap, ◌∙◌, List,
  [], ◌∷◌, ◌++◌, ok, some, length, length-append, length-take, length-drop, length-fresh, take,
  drop, take-append, take-append-drop, fresh, memcpy, memcpy_lem, memcpy_at, mul_int64,
  mul_int64_lem, add_int64_lem, ltb, lt→ltb, if◌then◌else◌, min, arith,
}
use native.Mathlib.Decide.{dec_lt}
use kodlang.Base.Int.{ℤ, pos_part}
use kodlang.Str.{offset}
use kodlang.Str.Ops.{clamp_slice_lem, clamped-cut}
use kodlang.Arrays.{
  KodArray, Store, update, put_block, alloc_header, found, filled, kod_array_slice, kod_array_copy,
  kod_array_concat_new,
}
use kodlang.Arrays.Holds.{
  Later, Later-update, Later-allotted, one_owner, Holds, IsValid, update_self, update_ne, ne_of_le,
  lt_irrefl, n_lt_succ, header-lt-next,
}

-- A call made a new array of `zs` at an unused address, and left every other array as it was.
pub record Made (σ σ' : Store) (a : ℕ) (zs : List ℕ) : Type 0 where
  pub unused : σ.next ≤ a
  pub valid : IsValid σ'
  pub holds : Holds σ' a zs
  pub others : (b : ℕ) (ws : List ℕ) → Holds σ b ws → Holds σ' b ws

-- The store with a new header, and `zs` and `room` in a new block.
made : Store → List ℕ → List ℕ → Store
made σ zs room =
    let out = alloc_header σ (record { ptr = σ.next + 1; len = length zs; cap = length zs }) in
    record (put_block out out.next (zs ++ room)) { next = out.next + 1 }

later :
    (σ : Store) (n : ℕ)
    → IsValid σ
    → (a : ℕ) {h : KodArray}
    → update σ.headers σ.next (record { ptr = σ.next + 1; len = n; cap = n }) a ≡ some h
    → Later σ σ.next (σ.next + 1) a h
later σ n v a e =
    Later-update v (omega arith) (record { ptr = σ.next + 1; len = n; cap = n }) a refl e

made-Made : (σ : Store) (zs room : List ℕ) → IsValid σ → Made σ (made σ zs room) σ.next zs
unfolding made
made-Made σ zs room v = record {
  unused = omega arith;
  valid = record {
    unused_header = λ p e.
        update_ne σ.headers σ.next _ p (ne_of_le (n_lt_succ σ.next) (omega arith))
        ∙ v.unused_header p (omega arith);
    unused_block = λ p e.
        update_ne σ.blocks (σ.next + 1) _ p (ne_of_le (n_lt_succ (σ.next + 1)) e)
        ∙ v.unused_block p (omega arith);
    allotted =
        λ a e. Later-allotted σ σ.next (σ.next + 1) a (omega arith) (later σ (length zs) v a e);
    owned = λ a b e f g.
        one_owner v (omega arith) a b (later σ (length zs) v a e) (later σ (length zs) v b f) g;
  };
  holds = record {
    head = record { ptr = σ.next + 1; len = length zs; cap = length zs };
    room = room;
    at = update_self σ.headers σ.next _;
    block = update_self σ.blocks (σ.next + 1) (zs ++ room);
    len = refl;
    fits = omega arith;
    backed = omega arith;
  };
  others = λ b ws k. record {
    head = k.head;
    room = k.room;
    at = update_ne σ.headers σ.next _ b (lt_irrefl (header-lt-next v k.at)) ∙ k.at;
    block =
        update_ne σ.blocks (σ.next + 1) _ k.head.ptr (lt_irrefl (omega (arith, v.allotted b k.at)))
        ∙ k.block;
    len = k.len;
    fits = k.fits;
    backed = k.backed;
  };
}

module _ (junk : ℕ → ℕ) (σ : Store) (v : IsValid σ) where
  -- The common end of the slice and the copy.
  filled_lem :
      (len at : ℕ) (src : List ℕ)
      → at + len ≤ length src
      → len < 2 ^ 58
      → (σ' : Store) × (filled junk len at src σ ≡ ok (σ.next, σ'))
        × Made σ σ' σ.next (take len (drop at src))
  unfolding filled made mul_int64
  filled_lem len at src h small = elim (dec_lt 0 len) [
    | yes l ↦
        let zs : List ℕ = take len (drop at src) in
        let size : length zs ≡ len =
          length-take len (drop at src) ∙ omega (arith, length-drop at src) in
        (
          made σ zs (drop (0 + len) (fresh junk len)),
          rw (
            mul_int64_lem len 8 (omega arith),
            lt→ltb 0 len l,
            memcpy_lem (fresh junk len) 0 src at len (omega (arith, length-fresh junk len)) h,
            size,
          ),
          made-Made σ zs (drop (0 + len) (fresh junk len)) v,
        )
    | no g ↦
        let none : len ≡ 0 = omega arith in
        rw none (made σ [] (fresh junk 1), refl, made-Made σ [] (fresh junk 1) v)
  ]

  -- In a valid store, on an array of fewer than 2 ^ 58 elements, a slice is a new array of the
  -- elements from start up to end, with the bounds moved into the array as for strings, and the
  -- source and every other array stay as they were.
  pub kod_array_slice_lem :
      (src : ℕ) (xs : List ℕ) (start end : ℤ)
      → Holds σ src xs
      → length xs < 2 ^ 58
      → (σ' : Store) × (kod_array_slice junk src start end σ ≡ ok (σ.next, σ'))
        × Made σ σ' σ.next (drop (pos_part start) (take (pos_part end) xs))
  unfolding kod_array_slice found offset
  kod_array_slice_lem src xs start end s h =
      let lo : ℕ = min (length xs) (pos_part start) in
      let n : ℕ = min (length xs) (pos_part end) - lo in
      let (σ', e, m) =
        filled_lem n lo (xs ++ s.room) (omega (arith, length-append xs s.room)) (omega arith) in
      (
        σ',
        rw (s.at, s.len, clamp_slice_lem (length xs) start end) (rw s.block e),
        subst (Made σ σ' σ.next)
            (take-drop-append lo n xs s.room (omega arith) ∙ clamped-cut xs start end) m,
      )

  -- In a valid store, on an array of fewer than 2 ^ 58 elements, a copy is a new array of the same
  -- elements, and every array that there was stays as it was.
  pub kod_array_copy_lem :
      (src : ℕ) (xs : List ℕ)
      → Holds σ src xs
      → length xs < 2 ^ 58
      → (σ' : Store) × (kod_array_copy junk src σ ≡ ok (σ.next, σ')) × Made σ σ' σ.next xs
  unfolding kod_array_copy found
  kod_array_copy_lem src xs s h =
      let (σ', e, m) =
        filled_lem (length xs) 0 (xs ++ s.room) (omega (arith, length-append xs s.room)) h in
      (
        σ',
        rw (s.at, s.block, s.len) e,
        subst (Made σ σ' σ.next) (take-append (length xs) xs s.room refl) m,
      )

-- A copy that is skipped where there is nothing to copy.
memcpy_unless_empty :
    (pre mid post src : List ℕ) (di n : ℕ)
    → di ≡ length pre
    → n ≡ length mid
    → n ≤ length src
    → (if ltb 0 n then memcpy (pre ++ (mid ++ post)) di src 0 n else ok (pre ++ (mid ++ post)))
      ≡ ok (pre ++ (take n src ++ post))
memcpy_unless_empty pre [] post src di n hd hn h = rw hn
memcpy_unless_empty pre (x ∷ mid) post src di n hd hn h =
    rw (lt→ltb 0 n (omega arith)) (memcpy_at pre (x ∷ mid) post src di 0 n hd hn (omega arith))

module _ (junk : ℕ → ℕ) (σ : Store) (v : IsValid σ) where
  -- In a valid store, on arrays that together have fewer than 2 ^ 58 elements, `+` makes a new
  -- array of the elements of both, in order, and every array that there was stays as it was.
  pub kod_array_concat_new_lem :
      (lhs rhs : ℕ) (xs ys : List ℕ)
      → Holds σ lhs xs
      → Holds σ rhs ys
      → length xs + length ys < 2 ^ 58
      → (σ' : Store) × (kod_array_concat_new junk lhs rhs σ ≡ ok (σ.next, σ'))
        × Made σ σ' σ.next (xs ++ ys)
  unfolding kod_array_concat_new found made
  kod_array_concat_new_lem lhs rhs xs ys l r h =
      let total : ℕ = length xs + length ys in
      let slots : List ℕ = fresh junk (if ltb 0 total then total else 1) in
      let room : total ≤ length slots =
        ground (arith, length-fresh junk (if ltb 0 total then total else 1)) in
      let rest : List ℕ = drop (length xs) slots in
      let seam : slots
          ≡ take (length xs) slots ++ (take (length ys) rest ++ drop (length ys) rest) =
        sym (
          ap (λ t. take (length xs) slots ++ t) (take-append-drop (length ys) rest)
          ∙ take-append-drop (length xs) slots) in
      let first = λ (m : List ℕ).
        if ltb 0 (length xs) then memcpy m 0 (xs ++ l.room) 0 (length xs) else ok m in
      let e₁ : first slots ≡ ok (xs ++ (take (length ys) rest ++ drop (length ys) rest)) =
        ap first seam
        ∙ memcpy_unless_empty [] (take (length xs) slots)
            (take (length ys) rest ++ drop (length ys) rest) (xs ++ l.room) 0 (length xs) refl
            (omega (arith, length-take (length xs) slots)) (omega (arith, length-append xs l.room))
        ∙ ap (λ m. ok (m ++ (take (length ys) rest ++ drop (length ys) rest)))
            (take-append (length xs) xs l.room refl) in
      let e₂ =
        memcpy_unless_empty xs (take (length ys) rest) (drop (length ys) rest) (ys ++ r.room)
          (length xs) (length ys) refl
          (omega (arith, length-take (length ys) rest, length-drop (length xs) slots))
          (omega (arith, length-append ys r.room))
        ∙ ap (λ m. ok (xs ++ (m ++ drop (length ys) rest))) (take-append (length ys) ys r.room refl)
        ∙ ap ok (sym (append_assoc xs ys (drop (length ys) rest))) in
      (
        made σ (xs ++ ys) (drop (length ys) rest),
        rw
            (
              l.at,
              r.at,
              l.len,
              r.len,
              add_int64_lem (length xs) (length ys) (omega arith),
              mul_int64_lem total 8 (omega arith),
              l.block,
            )
            (rw (r.block, e₁, e₂, length-append xs ys)),
        made-Made σ (xs ++ ys) (drop (length ys) rest) v,
      )
