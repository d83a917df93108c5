-- ===== src/Arena.antt =====
-- stdlib/arena.c: memory that is handed out from large blocks and given back all at once.
pub mod Regions
pub mod Alloc
pub mod Reach
mod Tests
use kodlang.Base.{
  ℕ, ◌+◌, ◌*◌, ◌/◌, List, [], ◌∷◌, map, Option, none, some, Run, ok, undefined, ◌>>=◌, add_int64,
  ltb, if◌then◌else◌,
}

-- A `Block` at address `at`: its header, then the bytes up to `end`, used up to `current`. The
-- chain by `next` is the list that holds it.
pub record Block : Type 0 where
  pub at : ℕ
  pub current : ℕ
  pub end : ℕ

abbrev pub block_size : ℕ
block_size = 4 * 1024 * 1024

-- `sizeof(Block)`
abbrev pub block_header : ℕ
block_header = 24

-- `ptr = current; current += size` in the first block.
unfoldable pub bump : ℕ → List Block → Run (ℕ × List Block)
bump size [] = undefined
bump size (b ∷ bs) = ok (b.current, record b { current = b.current + size } ∷ bs)

-- What the C library's `malloc` returns for a size; `none` is NULL.
module _ (malloc : ℕ → Option ℕ) where
  unfoldable pub new_block : ℕ → Run Block
  new_block min_size = do
    let size = if ltb min_size block_size then block_size else min_size
    total ← add_int64 block_header size
    elim (malloc total) [
      | none ↦ undefined
      | some b ↦ ok (record { at = b; current = b + block_header; end = b + block_header + size })
    ]

  -- `current_block == NULL || current_block->current + size > current_block->end`
  unfoldable pub make_room : ℕ → List Block → Run (List Block)
  make_room size [] = do b ← new_block size; ok (b ∷ [])
  make_room size (c ∷ bs) =
      if ltb c.end (c.current + size) then (do b ← new_block size; ok (b ∷ c ∷ bs)) else ok (c ∷ bs)

  -- `(size + 7) & ~7` on a size that is not negative; then the first block, or a new one.
  unfoldable pub arena_alloc : ℕ → List Block → Run (ℕ × List Block)
  arena_alloc size bs = do
    up ← add_int64 size 7
    let rounded = up / 8 * 8
    roomy ← make_room rounded bs
    bump rounded roomy

-- The blocks given to `free`, in order, and no block left.
unfoldable pub arena_reset : List Block → List ℕ × List Block
arena_reset bs = (map (λ b. b.at) bs, [])
