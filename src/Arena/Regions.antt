-- ===== src/Arena/Regions.antt =====
-- Regions of memory, and what holds between the blocks of the arena and what it handed out.
use kodlang.Base.{ℕ, ◌+◌, ◌%◌, ◌≤◌, ◌≡◌, ◌⊎◌, List, [], ◌∷◌}
use kodlang.Arena.{Block, block_header}

pub record Region : Type 0 where
  pub at : ℕ
  pub size : ℕ

-- One lies wholly before the other.
abbrev pub Apart : Region → Region → Type 0
Apart r s = (r.at + r.size ≤ s.at) ⊎ (s.at + s.size ≤ r.at)

abbrev pub All {ℓ κ} : {A : Type ℓ} → (A → Type κ) → List A → Type κ
All P [] = Unit
All P (x ∷ xs) = P x × All P xs

abbrev pub Pairs {ℓ κ} : {A : Type ℓ} → (A → A → Type κ) → List A → Type κ
Pairs R [] = Unit
Pairs R (x ∷ xs) = All (R x) xs × Pairs R xs

-- A block reaches from its header to `end`.
abbrev pub Outside : Region → Block → Type 0
Outside r b = (r.at + r.size ≤ b.at) ⊎ (b.end ≤ r.at)

abbrev pub BlocksApart : Block → Block → Type 0
BlocksApart b c = (b.end ≤ c.at) ⊎ (c.end ≤ b.at)

pub record IsTidy (b : Block) : Type 0 where
  pub behind_header : b.at + block_header ≤ b.current
  pub bounded : b.current ≤ b.end
  pub even : b.current % 8 ≡ 0

-- In the used part of a block, behind its header.
abbrev pub Inside : Region → Block → Type 0
Inside r b = (b.at + block_header ≤ r.at) × (r.at + r.size ≤ b.current)

abbrev pub Within : List Block → Region → Type 0
Within [] r = ⊥
Within (b ∷ bs) r = Inside r b ⊎ Within bs r

-- The arena is well formed, and `live` is what it has handed out: 8-aligned regions inside its
-- blocks, no two of which overlap.
pub record IsArena (bs : List Block) (live : List Region) : Type 0 where
  pub tidy : All IsTidy bs
  pub blocks : Pairs BlocksApart bs
  pub inside : All (Within bs) live
  pub aligned : All (λ r. r.at % 8 ≡ 0) live
  pub apart : Pairs Apart live
