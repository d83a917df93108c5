-- ===== src/Arrays/Regrow.antt =====
-- The part of `kod_array_concat` that moves the array at `lhs` into a larger block.
use native.Mathlib.Nat.{le_refl}
use kodlang.Base.{
  ℕ, ◌+◌, ◌^◌, ◌≤◌, ◌<◌, ◌≡◌, inl, refl, sym, ap, ◌∙◌, List, [], ◌++◌, some, Run, ok, ◌>>=◌, length,
  length-take, length-drop, take, drop, take-append-drop, mul_int64_lem, fresh, length-fresh, ltb,
  if◌then◌else◌, arith,
}
use kodlang.Growth.{grow_lem}
use kodlang.Arrays.{
  KodArray, Store, update, put_header, put_block, copy_slots, alloc_slots, grow_array,
}
use kodlang.Arrays.Holds.{
  Later, Later-update, Later-allotted, one_owner, ne_of_le, n_lt_succ, lt_irrefl, update_self,
  update_ne, Holds, IsValid, Changed, header-lt-next,
}
use kodlang.Arrays.Loop.{put_block_at, copy_slots_lem}

-- A new block of `c` slots for the array at `lhs`, with its elements copied over.
module _ (junk : ℕ → ℕ) {σ : Store} {lhs : ℕ} {xs : List ℕ} (v : IsValid σ)
    (l : Holds σ lhs xs) where
  pub regrown : ℕ → Store
  regrown c =
      put_header (put_block (alloc_slots junk σ c) σ.next (xs ++ drop (length xs) (fresh junk c)))
        lhs (record l.head { ptr = σ.next; cap = c })

  later :
      (c a : ℕ) {h : KodArray}
      → update σ.headers lhs (record l.head { ptr = σ.next; cap = c }) a ≡ some h
      → Later σ lhs σ.next a h
  later c a e = Later-update v (le_refl σ.next) (record l.head { ptr = σ.next; cap = c }) a refl e

  pub regrown-Changed :
      (c : ℕ) → length xs ≤ c → (d : Changed σ (regrown c) lhs xs) × (d.holds.head.cap ≡ c)
  unfolding regrown
  regrown-Changed c h = (
    record {
      valid = record {
        unused_header = λ p e.
            update_ne σ.headers lhs _ p (ne_of_le (header-lt-next v l.at) (omega arith))
            ∙ v.unused_header p (omega arith);
        unused_block = λ p e.
            let far = ne_of_le (n_lt_succ σ.next) e in
            update_ne (alloc_slots junk σ c).blocks σ.next _ p far
            ∙ update_ne σ.blocks σ.next _ p far
            ∙ v.unused_block p (omega arith);
        allotted = λ a e. Later-allotted σ lhs σ.next a (le_refl σ.next) (later c a e);
        owned = λ a b e f g. one_owner v (le_refl σ.next) a b (later c a e) (later c b f) g;
      };
      holds = record {
        head = record l.head { ptr = σ.next; cap = c };
        room = drop (length xs) (fresh junk c);
        at = update_self σ.headers lhs _;
        block = put_block_at (alloc_slots junk σ c) σ.next _;
        len = l.len;
        fits = omega (arith, l.len);
        backed = omega (arith, length-drop (length xs) (fresh junk c), length-fresh junk c);
      };
      others = λ a zs ne k. record {
        head = k.head;
        room = k.room;
        at = update_ne σ.headers lhs _ a ne ∙ k.at;
        block =
            let far = λ (e : k.head.ptr ≡ σ.next). lt_irrefl (v.allotted a k.at) e in
            update_ne (alloc_slots junk σ c).blocks σ.next _ k.head.ptr far
            ∙ update_ne σ.blocks σ.next _ k.head.ptr far
            ∙ k.block;
        len = k.len;
        fits = k.fits;
        backed = k.backed;
      };
    },
    refl,
  )

  -- The part under `lhs->cap < total` ends, with room for `total` elements.
  pub grow_array_lem :
      (total : ℕ)
      → l.head.cap < total
      → total < 2 ^ 58
      → (σ' : Store) × (grow_array junk lhs l.head total σ ≡ ok σ')
        × (d : Changed σ σ' lhs xs) × (total ≤ d.holds.head.cap)
  unfolding grow_array regrown
  grow_array_lem total less small =
      let cap : ℕ = if ltb 0 l.head.cap then l.head.cap else 4 in
      let bounds : (0 < cap) × (cap ≤ total + 4) = ground arith in
      let (c, e, g) = grow_lem total cap total bounds.0 (omega arith) (omega arith) in
      let (d, room) = regrown-Changed c (omega (arith, l.len, l.fits, g.enough)) in
      (
        regrown c,
        rw (e, mul_int64_lem c 8 (omega (arith, g.tight, bounds.1)))
            (ap (λ m. next c m) (copies c (omega (arith, l.len, l.fits, g.enough)))),
        d,
        omega (arith, room, g.enough),
      )
    where
      next : ℕ → Run Store → Run Store
      next c m = do moved ← m; ok (put_header moved lhs (record l.head { ptr = σ.next; cap = c }))

      copies :
          (c : ℕ)
          → length xs ≤ c
          → copy_slots l.head.len 0 σ.next 0 l.head.ptr (alloc_slots junk σ c)
            ≡ ok (put_block (alloc_slots junk σ c) σ.next (xs ++ drop (length xs) (fresh junk c)))
      copies c h =
          ap (λ n. copy_slots n 0 σ.next 0 l.head.ptr (alloc_slots junk σ c)) l.len
          ∙ copy_slots_lem [] xs xs [] (take (length xs) (fresh junk c))
              (drop (length xs) (fresh junk c)) 0 σ.next 0 l.head.ptr (alloc_slots junk σ c) refl
              refl (omega arith)
              (omega (arith, length-take (length xs) (fresh junk c), length-fresh junk c))
              (put_block_at σ σ.next (fresh junk c)
                ∙ ap some (sym (take-append-drop (length xs) (fresh junk c))))
              (record {
                tail = l.room;
                holds =
                    update_ne σ.blocks σ.next _ l.head.ptr (lt_irrefl (v.allotted lhs l.at))
                    ∙ l.block;
              })
              (inl (λ e. lt_irrefl (v.allotted lhs l.at) (sym e)))
