-- ===== src/Arrays/Loop.antt =====
-- The copying loops of `kod_array_concat`, also where both sides are one block.
use mathlib.Core.Path.{fun_ext}
use kodlang.Base.{
  ℕ, ◌+◌, ◌≡◌, ◌≢◌, ◌⊎◌, inl, inr, sym, ap, ◌∙◌, List, [], ◌∷◌, ◌++◌, Option, some, ok, length,
  length-append, load, load_lem, store_lem, set-append, get_elem?, get_elem?-append_right,
  append_assoc, arith,
}
use kodlang.Arrays.{Store, put_block, found, copy_slots}

abbrev with_blocks : Store → (ℕ → Option (List ℕ)) → Store
with_blocks σ f = record σ { blocks = f }

-- Writing what is there changes nothing, and of two writes the second counts.
put_block_same : (σ : Store) (p : ℕ) (b : List ℕ) → σ.blocks p ≡ some b → put_block σ p b ≡ σ
put_block_same σ p b e = ap (with_blocks σ) (fun_ext λ q. ground arith)

put_block-put_block :
    (σ : Store) (p : ℕ) (b c : List ℕ) → put_block (put_block σ p b) p c ≡ put_block σ p c
put_block-put_block σ p b c = ap (with_blocks σ) (fun_ext λ q. ground arith)

-- `src` is another block than `dst`, or the same one and its elements lie before those written.
abbrev pub Apart : (dst src : ℕ) → (before elems : List ℕ) → Type 0
Apart dst src before elems = (dst ≢ src) ⊎ (dst ≡ src) × (rest : List ℕ) × (before ≡ elems ++ rest)

pub record Reads (σ : Store) (src : ℕ) (elems : List ℕ) : Type 0 where
  pub tail : List ℕ
  pub holds : σ.blocks src ≡ some (elems ++ tail)

-- Reading the element behind a prefix.
load-append :
    (done : List ℕ) (x : ℕ) (xs elems tail : List ℕ) (i : ℕ)
    → i ≡ length done
    → elems ≡ done ++ x ∷ xs
    → load (elems ++ tail) i ≡ ok x
load-append done x xs elems tail i h e = load_lem (elems ++ tail) i (
    ap (λ l. get_elem? (l ++ tail) i) e
    ∙ ap (λ l. get_elem? l i) (append_assoc done (x ∷ xs) tail)
    ∙ get_elem?-append_right i done (x ∷ (xs ++ tail)) h)

pub put_block_at : (σ : Store) (p : ℕ) (b : List ℕ) → (put_block σ p b).blocks p ≡ some b
put_block_at σ p b = ground arith

pub put_block_ne :
    (σ : Store) (p q : ℕ) (b : List ℕ) → p ≢ q → (put_block σ p b).blocks q ≡ σ.blocks q
put_block_ne σ p q b h = ground arith

-- A round writes nowhere among the elements that are still to be read.
Reads-round :
    (σ : Store) (dst src x : ℕ) (before elems rest : List ℕ)
    → Reads σ src elems
    → Apart dst src before elems
    → Reads (put_block σ dst (before ++ x ∷ rest)) src elems
Reads-round σ dst src x before elems rest r (inl ne) = record {
  tail = r.tail;
  holds = put_block_ne σ dst src _ ne ∙ r.holds;
}
Reads-round σ dst src x before elems rest r (inr (e, more, b)) = record {
  tail = more ++ x ∷ rest;
  holds =
      ap (put_block σ dst (before ++ x ∷ rest)).blocks (sym e)
      ∙ put_block_at σ dst (before ++ x ∷ rest)
      ∙ ap some (ap (λ l. l ++ x ∷ rest) b ∙ append_assoc elems more (x ∷ rest));
}

Apart-round :
    (dst src x : ℕ) (before elems : List ℕ)
    → Apart dst src before elems
    → Apart dst src (before ++ x ∷ []) elems
Apart-round dst src x before elems (inl ne) = inl ne
Apart-round dst src x before elems (inr (e, more, b)) =
    inr (e, more ++ x ∷ [], ap (λ l. l ++ x ∷ []) b ∙ append_assoc elems more (x ∷ []))

-- With the elements `done` copied, the loop copies `xs` over `old` and leaves what lies behind.
pub copy_slots_lem :
    (done xs elems before old post : List ℕ) (i dst at src : ℕ) (σ : Store)
    → i ≡ length done
    → elems ≡ done ++ xs
    → at + i ≡ length before
    → length old ≡ length xs
    → σ.blocks dst ≡ some (before ++ (old ++ post))
    → Reads σ src elems
    → Apart dst src before elems
    → copy_slots (length xs) i dst at src σ ≡ ok (put_block σ dst (before ++ (xs ++ post)))
unfolding copy_slots found
copy_slots_lem done [] elems before [] post i dst at src σ hi he ha ho e r a =
    ap ok (sym (put_block_same σ dst (before ++ post) e))
copy_slots_lem done [] elems before (o ∷ old) post i dst at src σ hi he ha ho e r a =
    absurd (omega arith)
copy_slots_lem done (x ∷ xs) elems before [] post i dst at src σ hi he ha ho e r a =
    absurd (omega arith)
copy_slots_lem done (x ∷ xs) elems before (o ∷ old) post i dst at src σ hi he ha ho e r a =
    rw
      (
        r.holds,
        load-append done x xs elems r.tail i hi he,
        e,
        store_lem (before ++ (o ∷ old ++ post)) (at + i) x
            (omega (arith, length-append before (o ∷ old ++ post))),
        set-append before o x (old ++ post) (at + i) ha,
      )
      (copy_slots_lem (done ++ x ∷ []) xs elems (before ++ x ∷ []) old post (i + 1) dst at src
          (put_block σ dst (before ++ x ∷ (old ++ post)))
          (omega (arith, length-append done (x ∷ []))) (he ∙ sym (append_assoc done (x ∷ []) xs))
          (omega (arith, length-append before (x ∷ []))) (omega arith)
          (put_block_at σ dst _ ∙ ap some (sym (append_assoc before (x ∷ []) (old ++ post))))
          (Reads-round σ dst src x before elems (old ++ post) r a)
          (Apart-round dst src x before elems a)
        ∙ ap ok (
            put_block-put_block σ dst _ _
            ∙ ap (put_block σ dst) (append_assoc before (x ∷ []) (xs ++ post))))
