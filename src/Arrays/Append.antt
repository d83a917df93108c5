-- ===== src/Arrays/Append.antt =====
-- The end of `kod_array_concat`: the elements of `rhs` are written behind those of `lhs`.
use native.Mathlib.Decide.{ℕ_discrete}
use kodlang.Base.{
  subst, append-nil, ℕ, ◌+◌, ◌≤◌, ◌≡◌, inl, inr, refl, sym, ap, ap₂, ◌∙◌, List, [], ◌++◌, some, Run,
  ok, ◌>>=◌, length, length-append, length-take, length-drop, take, drop, take-append-drop,
  append_assoc, eq_of_some-eq-some, arith,
}
use kodlang.Arrays.{KodArray, Store, update, put_header, put_block, found, copy_slots, append_slots}
use kodlang.Arrays.Holds.{
  ne_of_le, update_self, update_ne, Holds, IsValid, Changed, header-lt-next, block-lt-next,
  Holds-unique,
}
use kodlang.Arrays.Loop.{Apart, put_block_at, put_block_ne, copy_slots_lem}

module _ {σ : Store} {lhs : ℕ} {xs : List ℕ} (v : IsValid σ) (l : Holds σ lhs xs) where
  -- The store with `ys` written behind the elements of the array at `lhs`.
  pub appended : List ℕ → Store
  appended ys =
      put_header (put_block σ l.head.ptr (xs ++ (ys ++ drop (length ys) l.room))) lhs
        (record l.head { len = length xs + length ys })

  -- The new headers name the blocks of the old ones.
  before :
      (n a : ℕ) {h : KodArray}
      → update σ.headers lhs (record l.head { len = n }) a ≡ some h
      → (k : KodArray) × (σ.headers a ≡ some k) × (k.ptr ≡ h.ptr)
  before n a e = elim (ℕ_discrete a lhs) [
    | yes p ↦ (
      l.head,
      ap σ.headers p ∙ l.at,
      ap (λ (r : KodArray). r.ptr)
          (eq_of_some-eq-some
            (sym (ap (update σ.headers lhs _) p ∙ update_self σ.headers lhs _) ∙ e)),
    )
    | no p ↦ (_, sym (update_ne σ.headers lhs _ a p) ∙ e, refl)
  ]

  pub appended-Changed :
      (ys : List ℕ) → length xs + length ys ≤ l.head.cap → Changed σ (appended ys) lhs (xs ++ ys)
  unfolding appended
  appended-Changed ys h = record {
    valid = record {
      unused_header = λ p e.
          update_ne σ.headers lhs _ p (ne_of_le (header-lt-next v l.at) e) ∙ v.unused_header p e;
      unused_block = λ p e.
          update_ne σ.blocks l.head.ptr _ p (ne_of_le (block-lt-next v l.block) e)
          ∙ v.unused_block p e;
      allotted = λ a e. let (k, p, q) = before _ a e in omega (arith, v.allotted a p);
      owned = λ a b e f g.
          let (h', p, q) = before _ a e in
          let (k', r, t) = before _ b f in v.owned a b p r (q ∙ g ∙ sym t);
    };
    holds = record {
      head = record l.head { len = length xs + length ys };
      room = drop (length ys) l.room;
      at = update_self σ.headers lhs _;
      block =
          put_block_at σ l.head.ptr _
          ∙ ap some (sym (append_assoc xs ys (drop (length ys) l.room)));
      len = sym (length-append xs ys);
      fits = h;
      backed = omega (arith, l.backed, length-append xs ys, length-drop (length ys) l.room);
    };
    others = λ a zs ne k. record {
      head = k.head;
      room = k.room;
      at = update_ne σ.headers lhs _ a (λ e. ne e) ∙ k.at;
      block =
          put_block_ne σ l.head.ptr k.head.ptr _ (λ e. ne (v.owned a lhs k.at l.at (sym e)))
          ∙ k.block;
      len = k.len;
      fits = k.fits;
      backed = k.backed;
    };
  }

  -- With room for them, the elements of `rhs` are written behind those of `lhs`, also where both
  -- are one array.
  pub append_slots_lem :
      {rhs : ℕ} {ys : List ℕ} (r : Holds σ rhs ys)
      → length xs + length ys ≤ l.head.cap
      → append_slots lhs rhs (length xs + length ys) σ ≡ ok (appended ys)
  unfolding append_slots appended found
  append_slots_lem {rhs} {ys} r h = rw (l.at, r.at) (ap (λ m. next m) copies)
    where
      next : Run Store → Run Store
      next m = do
        copied ← m
        ok (put_header copied lhs (record l.head { len = length xs + length ys }))

      split : l.room ≡ take (length ys) l.room ++ drop (length ys) l.room
      split = sym (take-append-drop (length ys) l.room)

      apart : Apart l.head.ptr r.head.ptr xs ys
      apart = elim (ℕ_discrete lhs rhs) [
        | yes e ↦ inr (
          ap (λ (k : KodArray). k.ptr) (eq_of_some-eq-some (sym l.at ∙ ap σ.headers e ∙ r.at)),
          [],
          Holds-unique l (subst (λ a. Holds σ a ys) (sym e) r) ∙ sym (append-nil ys),
        )
        | no ne ↦ inl (λ e. ne (v.owned lhs rhs l.at r.at e))
      ]

      copies :
          copy_slots r.head.len 0 l.head.ptr l.head.len r.head.ptr σ
          ≡ ok (put_block σ l.head.ptr (xs ++ (ys ++ drop (length ys) l.room)))
      copies =
          ap₂ (λ n m. copy_slots n 0 l.head.ptr m r.head.ptr σ) r.len l.len
          ∙ copy_slots_lem [] ys ys xs (take (length ys) l.room) (drop (length ys) l.room) 0
              l.head.ptr (length xs) r.head.ptr σ refl refl (omega arith)
              (omega (arith, length-take (length ys) l.room, l.backed))
              (l.block ∙ ap (λ m. some (xs ++ m)) split) (record { tail = r.room; holds = r.block })
              apart
