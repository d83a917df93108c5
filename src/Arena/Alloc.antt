-- ===== src/Arena/Alloc.antt =====
-- `arena_alloc` of stdlib/arena.c keeps the arena well formed.
use kodlang.Base.{
  ℕ, ◌+◌, ◌*◌, ◌/◌, ◌%◌, ◌^◌, ◌≤◌, ◌<◌, ◌≡◌, inl, inr, List, [], ◌∷◌, Option, some, ok,
  add_int64_lem, ltb, lt→ltb, le→ltb, if◌then◌else◌, arith,
}
use native.Mathlib.Decide.{dec_lt}
use kodlang.Arena.{Block, block_size, block_header, new_block, bump, make_room, arena_alloc}
use kodlang.Arena.Regions.{Region, Apart, All, Outside, BlocksApart, IsTidy, Within, IsArena}

pub All-mono {ℓ κ ι} :
    {A : Type ℓ} {P : A → Type κ} {Q : A → Type ι} (xs : List A)
    → ((x : A) → P x → Q x)
    → All P xs
    → All Q xs
All-mono [] f h = tt
All-mono (x ∷ xs) f h = (f x h.0, All-mono xs f h.1)

abbrev pub region : ℕ → ℕ → Region
region p n = record { at = p; size = n }

-- A block that lies apart from all blocks overlaps nothing that lies in them.
within-Outside :
    (b : Block) (bs : List Block) (r : Region)
    → All (BlocksApart b) bs
    → All IsTidy bs
    → Within bs r
    → Outside r b
within-Outside b [] r h t w = absurd w
within-Outside b (c ∷ bs) r h t (inl i) = grind (arith, h.0, t.0, i.0, i.1)
within-Outside b (c ∷ bs) r h t (inr w) = within-Outside b bs r h.1 t.1 w

module _ (b : Block) (bs : List Block) (live : List Region) (n : ℕ) where
  -- The next `n` bytes of the first block.
  pub bump-IsArena :
      IsArena (b ∷ bs) live
      → b.current + n ≤ b.end
      → n % 8 ≡ 0
      → IsArena (record b { current = b.current + n } ∷ bs) (region b.current n ∷ live)
  bump-IsArena v room even =
      let t = v.tidy.0 in
      record {
        tidy = (
          record {
            behind_header = omega (arith, t.behind_header);
            bounded = room;
            even = omega (arith, t.even);
          },
          v.tidy.1,
        );
        blocks = v.blocks;
        inside = (inl (t.behind_header, omega arith), All-mono live grow v.inside);
        aligned = (t.even, v.aligned);
        apart = (All-mono live new v.inside, v.apart);
      }
    where
      grow : (r : Region) → Within (b ∷ bs) r → Within (record b { current = b.current + n } ∷ bs) r
      grow r (inl i) = inl (i.0, omega (arith, i.1))
      grow r (inr w) = inr w

      beside : (r : Region) → Outside r b → Apart (region b.current n) r
      beside r (inl o) = inr (omega (arith, o, v.tidy.0.behind_header))
      beside r (inr o) = inl (omega (arith, o))

      new : (r : Region) → Within (b ∷ bs) r → Apart (region b.current n) r
      new r (inl i) = inr i.1
      new r (inr w) = beside r (within-Outside b bs r v.blocks.0 v.tidy.1 w)

-- What `malloc` promises: for every size memory that nothing uses, aligned to 16.
pub record Serves (malloc : ℕ → Option ℕ) (bs : List Block) : Type 0 where
  pub address : ℕ → ℕ
  pub gives : (n : ℕ) → malloc n ≡ some (address n)
  pub aligned : (n : ℕ) → address n % 16 ≡ 0
  pub unused : (n : ℕ) → All (Outside (region (address n) n)) bs

-- The block that `new_block` makes at `p`.
abbrev pub block_at : (p size : ℕ) → Block
block_at p size = record { at = p; current = p + block_header; end = p + block_header + size }

-- A new block beside the others.
new-IsArena :
    (p size : ℕ) (bs : List Block) (live : List Region)
    → p % 16 ≡ 0
    → All (Outside (region p (block_header + size))) bs
    → IsArena bs live
    → IsArena (block_at p size ∷ bs) live
new-IsArena p size bs live even out v = record {
  tidy =
      (record { behind_header = omega arith; bounded = omega arith; even = omega arith }, v.tidy);
  blocks = (All-mono bs (λ b o. flip b o) out, v.blocks);
  inside = All-mono live (λ r w. inr w) v.inside;
  aligned = v.aligned;
  apart = v.apart;
}
  where
    flip :
        (b : Block) → Outside (region p (block_header + size)) b → BlocksApart (block_at p size) b
    flip b (inl o) = inl (omega (arith, o))
    flip b (inr o) = inr o

module _ (malloc : ℕ → Option ℕ) (size : ℕ) (bs : List Block) (live : List Region) where
  -- `new_block` makes room for `size` bytes.
  pub new_block_lem :
      Serves malloc bs
      → IsArena bs live
      → size < 2 ^ 62
      → (b : Block) × (new_block malloc size ≡ ok b)
        × IsArena (b ∷ bs) live
        × (b.current + size ≤ b.end)
  unfolding new_block
  new_block_lem s v small =
      let full : ℕ = if ltb size block_size then block_size else size in
      let bounds : (size ≤ full) × (full ≤ size + block_size) = ground arith in
      let p = s.address (block_header + full) in
      (
        block_at p full,
        rw (
          add_int64_lem block_header full (omega (arith, bounds.1)),
          s.gives (block_header + full),
        ),
        new-IsArena p full bs live (s.aligned (block_header + full))
            (s.unused (block_header + full)) v,
        omega (arith, bounds.0),
      )

-- The first block has room, or a new one is put in front.
make_room_lem :
    (malloc : ℕ → Option ℕ) (size : ℕ) (bs : List Block) (live : List Region)
    → Serves malloc bs
    → IsArena bs live
    → size < 2 ^ 62
    → (b : Block) × (rest : List Block) × (make_room malloc size bs ≡ ok (b ∷ rest))
      × IsArena (b ∷ rest) live
      × (b.current + size ≤ b.end)
unfolding make_room
make_room_lem malloc size [] live s v small =
    let (b, e, w, room) = new_block_lem malloc size [] live s v small in (b, [], rw e, w, room)
make_room_lem malloc size (c ∷ bs) live s v small = elim (dec_lt c.end (c.current + size)) [
  | yes full ↦
      let (b, e, w, room) = new_block_lem malloc size (c ∷ bs) live s v small in
      (b, c ∷ bs, rw (lt→ltb c.end (c.current + size) full, e), w, room)
  | no fits ↦ (c, bs, rw (le→ltb c.end (c.current + size) (omega arith)), v, omega arith)
]

-- With a malloc that serves, on an arena in order and a size under 2 ^ 61: arena_alloc succeeds
-- with n bytes, n the size rounded up to a multiple of 8, in an 8-aligned region inside a block
-- that overlaps nothing handed out since the last reset.
pub arena_alloc_lem :
    (malloc : ℕ → Option ℕ) (size : ℕ) (bs : List Block) (live : List Region)
    → Serves malloc bs
    → IsArena bs live
    → size < 2 ^ 61
    → (p : ℕ) × (bs' : List Block) × (n : ℕ) × (arena_alloc malloc size bs ≡ ok (p, bs'))
      × (size ≤ n)
      × (n < size + 8)
      × (n % 8 ≡ 0)
      × IsArena bs' (region p n ∷ live)
unfolding arena_alloc bump
arena_alloc_lem malloc size bs live s v small =
    let n : ℕ = (size + 7) / 8 * 8 in
    let (b, rest, e, w, room) = make_room_lem malloc n bs live s v (omega arith) in
    (
      b.current,
      record b { current = b.current + n } ∷ rest,
      n,
      rw (add_int64_lem size 7 (omega arith), e),
      omega arith,
      omega arith,
      omega arith,
      bump-IsArena b rest live n w room (omega arith),
    )
