-- ===== src/Arena/Tests.antt =====
-- The arena on a few allocations, and the theorems there.
use kodlang.Base.{
  ℕ, ◌+◌, ◌%◌, ◌^◌, ◌≤◌, ◌<◌, ◌≡◌, ◌≢◌, refl, List, [], ◌∷◌, Option, none, some, ok, undefined,
  add_int64, arith,
}
use kodlang.Arena.{Block, block_size, new_block, bump, make_room, arena_alloc, arena_reset}
use kodlang.Arena.Alloc.{region, Serves, arena_alloc_lem}
use kodlang.Arena.Reach.{Reach, start, alloc, Reach-IsArena, Among, StartsBlock, arena_reset_lem}
use kodlang.Arena.Regions.{All, Pairs, IsArena}

abbrev first : ℕ → Option ℕ
first n = some 4096

abbrev second : ℕ → Option ℕ
second n = some (2 ^ 40)

abbrev one : List Block
one = record { at = 4096; current = 4128; end = 4120 + block_size } ∷ []

abbrev two : List Block
two = record { at = 2 ^ 40; current = 2 ^ 40 + 24 + 2 ^ 23; end = 2 ^ 40 + 24 + 2 ^ 23 } ∷ one

alloc_small : arena_alloc first 5 [] ≡ ok (4120, one)
unfolding arena_alloc make_room new_block bump add_int64
alloc_small = refl

-- More than a block has: a block of its own.
alloc_large : arena_alloc second (2 ^ 23) one ≡ ok (2 ^ 40 + 24, two)
unfolding arena_alloc make_room new_block bump add_int64
alloc_large = refl

-- `new_block` writes through what `malloc` returned without a look at it.
alloc_null : arena_alloc (λ n. none) 5 [] ≡ undefined
unfolding arena_alloc make_room new_block add_int64
alloc_null = refl

first-Serves : Serves first []
first-Serves = record {
  address = λ n. 4096;
  gives = λ n. refl;
  aligned = λ n. refl;
  unused = λ n. tt;
}

second-Serves : Serves second one
second-Serves = record {
  address = λ n. 2 ^ 40;
  gives = λ n. refl;
  aligned = λ n. refl;
  unused = λ n. (omega arith, tt);
}

two-Reach : Reach two (region (2 ^ 40 + 24) (2 ^ 23) ∷ region 4120 5 ∷ [])
two-Reach =
    alloc second (2 ^ 23) (2 ^ 40 + 24) two
      (alloc first 5 4120 one start first-Serves (omega arith) alloc_small) second-Serves
      (omega arith) alloc_large

Reach-IsArena_example : IsArena two (region (2 ^ 40 + 24) (2 ^ 23) ∷ region 4120 5 ∷ [])
Reach-IsArena_example = Reach-IsArena two-Reach

arena_reset_lem_example :
    All (λ b. Among b.at (arena_reset two).0) two
    × All (λ a. StartsBlock a two) (arena_reset two).0
    × Pairs ◌≢◌ (arena_reset two).0
    × ((arena_reset two).1 ≡ [])
arena_reset_lem_example = arena_reset_lem two-Reach

arena_alloc_lem_example :
    (p : ℕ) × (bs : List Block) × (n : ℕ) × (arena_alloc second 5 one ≡ ok (p, bs))
    × (5 ≤ n)
    × (n < 5 + 8)
    × (n % 8 ≡ 0)
    × IsArena bs (region p n ∷ region 4120 5 ∷ [])
arena_alloc_lem_example =
    arena_alloc_lem second 5 one (region 4120 5 ∷ []) second-Serves
      (Reach-IsArena (alloc first 5 4120 one start first-Serves (omega arith) alloc_small))
      (omega arith)
