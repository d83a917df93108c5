-- ===== src/Profiler/Walk.antt =====
-- The entries that the handler's walk writes.
use kodlang.Base.{
  ℕ, zero, suc, ◌+◌, ◌≤◌, ◌<◌, ◌≡◌, refl, ap, ◌∙◌, List, [], ◌∷◌, ok, length, get_elem?, set,
  length-set, get_elem?-set_self, get_elem?-set_ne, some, store_lem, leb, ◌==◌, ◌||◌, if◌then◌else◌,
  arith, Bool-cases, inl, inr,
}
use kodlang.Profiler.{walk}

-- The elements of one list stand in another from a position on.
abbrev pub At : ℕ → List ℕ → List ℕ → Type 0
At i [] fs = Unit
At i (x ∷ xs) fs = (get_elem? fs i ≡ some x) × At (i + 1) xs fs

-- Equal up to a position.
abbrev pub SameBelow : ℕ → List ℕ → List ℕ → Type 0
SameBelow m fs gs = (k : ℕ) → k < m → get_elem? gs k ≡ get_elem? fs k

pub record Written (at : ℕ) (xs fs gs : List ℕ) : Type 0 where
  pub size : length gs ≡ length fs
  pub there : At at xs gs
  pub below : SameBelow at fs gs

-- Writing one element, and then more behind it.
pub then_more :
    (at x : ℕ) (xs fs gs : List ℕ)
    → at < length fs
    → Written (at + 1) xs (set fs at x) gs
    → Written at (x ∷ xs) fs gs
then_more at x xs fs gs h w = record {
  size = w.size ∙ length-set fs at x;
  there = (w.below at (omega arith) ∙ get_elem?-set_self fs at x h, w.there);
  below = λ k b. w.below k (omega arith) ∙ get_elem?-set_ne fs {i = at} {j = k} x (omega arith);
}

pub no_more : (at : ℕ) (fs : List ℕ) → Written at [] fs fs
no_more at fs = record { size = refl; there = tt; below = λ k b. refl }

module _ (word : ℕ → ℕ) where
  -- The return addresses on the chain of frame pointers from `fp`: each frame must lie above the one
  -- before it, and the chain ends at NULL, at a NULL return address, or after `n` frames.
  unfoldable pub chain : (n fp : ℕ) → List ℕ
  chain zero fp = []
  chain (suc n) fp =
      let lr = word (fp + 8) in
      let next = word fp in
      let rest = if next == 0 || leb next fp then [] else chain n next in
      if fp == 0 || lr == 0 then [] else lr ∷ rest

  pub length-chain : (n fp : ℕ) → length (chain n fp) ≤ n
  unfolding chain
  length-chain zero fp = omega arith
  length-chain (suc n) fp = ground (arith, length-chain n (word fp))

  pub walk_lem :
      (room row depth fp at : ℕ) (frames : List ℕ)
      → at ≡ row + depth
      → at + room ≤ length frames
      → (gs : List ℕ) × (walk word room row depth fp frames
          ≡ ok (depth + length (chain room fp), gs))
        × Written at (chain room fp) frames gs
  unfolding walk chain
  walk_lem zero row depth fp at frames e h = (frames, ground arith, no_more at frames)
  walk_lem (suc room) row depth fp at frames e h =
      let lr : ℕ = word (fp + 8) in
      let onto : List ℕ = set frames at lr in
      elim (Bool-cases (fp == 0 || lr == 0)) [
        | inl stop ↦ rw stop (frames, ground arith, no_more at frames)
        | inr on ↦
            rw (on, ← e, store_lem frames at lr (omega arith))
              (elim (Bool-cases (word fp == 0 || leb (word fp) fp)) [
                | inl last ↦ rw last (
                  onto,
                  refl,
                  then_more at lr [] frames onto (omega arith) (no_more (at + 1) onto),
                )
                | inr more ↦
                    let (gs, f, w) =
                      walk_lem room row (depth + 1) (word fp) (at + 1) onto (omega arith)
                        (omega (arith, length-set frames at lr)) in
                    rw more (
                      gs,
                      f ∙ ap (λ n. ok (n, gs)) (omega arith),
                      then_more at lr (chain room (word fp)) frames gs (omega arith) w,
                    )
              ])
      ]
