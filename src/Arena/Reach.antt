-- ===== src/Arena/Reach.antt =====
-- The arena through any allocations and resets.
use kodlang.Base.{
  inl, inr, subst, eq_of_ok-eq-ok, ◌≢◌, ◌⊎◌, ℕ, ◌^◌, ◌≤◌, ◌<◌, ◌≡◌, refl, sym, ◌∙◌, List, [], ◌∷◌,
  map, Option, ok, arith,
}
use kodlang.Arena.{Block, arena_alloc, arena_reset}
use kodlang.Arena.Alloc.{region, Serves, All-mono, arena_alloc_lem}
use kodlang.Arena.Regions.{All, Pairs, Within, Apart, IsTidy, BlocksApart, Region, IsArena}

-- The states that calls lead to, each with the regions handed out since the last reset, at the size
-- asked for.
pub data Reach : List Block → List Region → Type 0 where
  start : Reach [] []
  alloc :
      {bs : List Block} {live : List Region} (malloc : ℕ → Option ℕ) (size p : ℕ) (bs' : List Block)
      → Reach bs live
      → Serves malloc bs
      → size < 2 ^ 61
      → arena_alloc malloc size bs ≡ ok (p, bs')
      → Reach bs' (region p size ∷ live)
  reset :
      {bs : List Block} {live : List Region} (bs' : List Block)
      → Reach bs live
      → bs' ≡ (arena_reset bs).1
      → Reach bs' []

-- Using less than was handed out.
shrink :
    (p size n : ℕ) (bs : List Block) (live : List Region)
    → size ≤ n
    → IsArena bs (region p n ∷ live)
    → IsArena bs (region p size ∷ live)
shrink p size n bs live h v = record {
  tidy = v.tidy;
  blocks = v.blocks;
  inside = (within bs v.inside.0, v.inside.1);
  aligned = v.aligned;
  apart = (All-mono live (λ r a. apart r a) v.apart.0, v.apart.1);
}
  where
    within : (cs : List Block) → Within cs (region p n) → Within cs (region p size)
    within [] w = w
    within (b ∷ cs) (inl i) = inl (i.0, omega (arith, i.1))
    within (b ∷ cs) (inr w) = inr (within cs w)

    apart : (r : Region) → Apart (region p n) r → Apart (region p size) r
    apart r (inl a) = inl (omega (arith, a))
    apart r (inr a) = inr a

-- Through any allocations and resets, with a malloc that returns unused memory: what has been
-- handed out since the last reset are 8-aligned regions of at least the size asked for, each inside
-- a block and behind its header, and no two of them overlap.
pub Reach-IsArena : {bs : List Block} {live : List Region} → Reach bs live → IsArena bs live
unfolding arena_reset
Reach-IsArena start = record { tidy = tt; blocks = tt; inside = tt; aligned = tt; apart = tt }
Reach-IsArena (alloc {bs} {live} malloc size p bs' r s small e) =
    let (p₀, bs₀, n, f, h, _, _, v) =
      arena_alloc_lem malloc size bs live s (Reach-IsArena r) small in
    let same = eq_of_ok-eq-ok (sym f ∙ e) in
    shrink p size n bs' live h
      (subst (λ (q : ℕ × List Block). IsArena q.1 (region q.0 n ∷ live)) same v)
Reach-IsArena (reset bs' r e) =
    subst (λ cs. IsArena cs []) (sym e)
      (record { tidy = tt; blocks = tt; inside = tt; aligned = tt; apart = tt })

distinct :
    (b : Block) (bs : List Block)
    → IsTidy b
    → All IsTidy bs
    → All (BlocksApart b) bs
    → All (λ a. b.at ≢ a) (map (λ (c : Block). c.at) bs)
distinct b [] t ts h = tt
distinct b (c ∷ bs) t ts h = (omega (arith, t, ts.0, h.0), distinct b bs t ts.1 h.1)

all_distinct :
    (bs : List Block)
    → All IsTidy bs
    → Pairs BlocksApart bs
    → Pairs ◌≢◌ (map (λ (c : Block). c.at) bs)
all_distinct [] t h = tt
all_distinct (b ∷ bs) t h = (distinct b bs t.0 t.1 h.0, all_distinct bs t.1 h.1)

-- An address is in a list, or is that of a block.
abbrev pub Among : ℕ → List ℕ → Type 0
Among a [] = ⊥
Among a (x ∷ xs) = (x ≡ a) ⊎ Among a xs

abbrev pub StartsBlock : ℕ → List Block → Type 0
StartsBlock a [] = ⊥
StartsBlock a (b ∷ bs) = (b.at ≡ a) ⊎ StartsBlock a bs

freed_all : (bs : List Block) → All (λ b. Among b.at (map (λ (c : Block). c.at) bs)) bs
freed_all [] = tt
freed_all (b ∷ bs) = (inl refl, All-mono bs (λ c m. inr m) (freed_all bs))

freed_only : (bs : List Block) → All (λ a. StartsBlock a bs) (map (λ (c : Block). c.at) bs)
freed_only [] = tt
freed_only (b ∷ bs) =
    (inl refl, All-mono (map (λ (c : Block). c.at) bs) (λ a s. inr s) (freed_only bs))

-- In an arena reached by any allocations and resets, arena_reset frees the address of every block
-- and no other address, none of them twice, and leaves no block.
pub arena_reset_lem :
    {bs : List Block} {live : List Region}
    → Reach bs live
    → All (λ b. Among b.at (arena_reset bs).0) bs
      × All (λ a. StartsBlock a bs) (arena_reset bs).0
      × Pairs ◌≢◌ (arena_reset bs).0
      × ((arena_reset bs).1 ≡ [])
unfolding arena_reset
arena_reset_lem {bs} r =
    let v = Reach-IsArena r in (freed_all bs, freed_only bs, all_distinct bs v.tidy v.blocks, refl)
