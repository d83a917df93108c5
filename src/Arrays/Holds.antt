-- ===== src/Arrays/Holds.antt =====
-- What it means that an address holds an array of given elements.
use native.Mathlib.Decide.{dec_lt, ℕ_discrete}
use kodlang.Base.{
  ◌⊎◌, inl, inr, refl, sym, ap, eq_of_some-eq-some, none-ne-some, ◌∙◌, take, take-append, ℕ, ◌+◌,
  ◌≤◌, ◌<◌, ◌≡◌, ◌≢◌, List, ◌++◌, Option, none, some, length, arith,
}
use kodlang.Arrays.{KodArray, Store, update}

module _ {ℓ} {A : Type ℓ} (f : ℕ → Option A) (p : ℕ) where
  pub update_self : (v : A) → update f p v p ≡ some v
  update_self v = ground arith

  pub update_ne : (v : A) (q : ℕ) → q ≢ p → update f p v q ≡ f q
  update_ne v q h = ground arith

pub ne_of_le : {a n p : ℕ} → a < n → n ≤ p → p ≢ a
ne_of_le h k = omega arith

pub n_lt_succ : (n : ℕ) → n < n + 1
n_lt_succ n = omega arith

pub lt_irrefl : {a b : ℕ} → a < b → a ≢ b
lt_irrefl h e = omega arith

-- The header at `a`, its `len` elements and the room behind them, which has `cap` slots at least.
pub record Holds (σ : Store) (a : ℕ) (xs : List ℕ) : Type 0 where
  pub head : KodArray
  pub room : List ℕ
  pub at : σ.headers a ≡ some head
  pub block : σ.blocks head.ptr ≡ some (xs ++ room)
  pub len : head.len ≡ length xs
  pub fits : head.len ≤ head.cap
  pub backed : head.cap ≤ length xs + length room

-- Unused addresses hold nothing and are named by no header, and no two headers share a block.
pub record IsValid (σ : Store) : Type 0 where
  pub unused_header : (p : ℕ) → σ.next ≤ p → σ.headers p ≡ none
  pub unused_block : (p : ℕ) → σ.next ≤ p → σ.blocks p ≡ none
  pub allotted : (a : ℕ) {h : KodArray} → σ.headers a ≡ some h → h.ptr < σ.next
  pub owned :
      (a b : ℕ) {h k : KodArray}
      → σ.headers a ≡ some h
      → σ.headers b ≡ some k
      → h.ptr ≡ k.ptr
      → a ≡ b

-- A call turned the array at `lhs` into one of `xs`, and left every other array as it was.
pub record Changed (σ σ' : Store) (lhs : ℕ) (xs : List ℕ) : Type 0 where
  pub valid : IsValid σ'
  pub holds : Holds σ' lhs xs
  pub others : (a : ℕ) (zs : List ℕ) → a ≢ lhs → Holds σ a zs → Holds σ' a zs

-- An address that holds something is in use.
pub header-lt-next :
    {σ : Store} {a : ℕ} {h : KodArray} → IsValid σ → σ.headers a ≡ some h → a < σ.next
header-lt-next {σ} {a} v e = elim (dec_lt a σ.next) [
  | yes l ↦ l
  | no g ↦ absurd (none-ne-some (sym (v.unused_header a (omega arith)) ∙ e))
]

pub block-lt-next : {σ : Store} {p : ℕ} {b : List ℕ} → IsValid σ → σ.blocks p ≡ some b → p < σ.next
block-lt-next {σ} {p} v e = elim (dec_lt p σ.next) [
  | yes l ↦ l
  | no g ↦ absurd (none-ne-some (sym (v.unused_block p (omega arith)) ∙ e))
]

-- An array has one list of elements.
pub Holds-unique : {σ : Store} {a : ℕ} {xs ys : List ℕ} → Holds σ a xs → Holds σ a ys → xs ≡ ys
Holds-unique {σ} {a} {xs} {ys} h k =
    let same : h.head ≡ k.head = eq_of_some-eq-some (sym h.at ∙ k.at) in
    let size : length xs ≡ length ys = sym h.len ∙ ap (λ (r : KodArray). r.len) same ∙ k.len in
    let bytes : xs ++ h.room ≡ ys ++ k.room =
      eq_of_some-eq-some (sym h.block ∙ ap (λ (r : KodArray). σ.blocks r.ptr) same ∙ k.block) in
    sym (take-append (length xs) xs h.room refl)
    ∙ ap (take (length xs)) bytes
    ∙ take-append (length xs) ys k.room size

-- A header after a call that gave the one at `c` the unused block `p`.
abbrev pub Later : Store → (c p a : ℕ) → KodArray → Type 0
Later σ c p a h = (a ≡ c) × (h.ptr ≡ p) ⊎ (σ.headers a ≡ some h) × (h.ptr < σ.next)

module _ {σ : Store} (v : IsValid σ) {c p : ℕ} (free : σ.next ≤ p) where
  pub Later-update :
      (k : KodArray) (a : ℕ) {h : KodArray}
      → k.ptr ≡ p
      → update σ.headers c k a ≡ some h
      → Later σ c p a h
  Later-update k a e f = elim (ℕ_discrete a c) [
    | yes q ↦ inl (
      q,
      ap (λ (r : KodArray). r.ptr)
            (eq_of_some-eq-some (sym f ∙ ap (update σ.headers c k) q ∙ update_self σ.headers c k))
          ∙ e,
    )
    | no q ↦ let was = sym (update_ne σ.headers c k a q) ∙ f in inr (was, v.allotted a was)
  ]

  pub one_owner :
      (a b : ℕ) {h k : KodArray} → Later σ c p a h → Later σ c p b k → h.ptr ≡ k.ptr → a ≡ b
  one_owner a b (inl q) (inl r) e = q.0 ∙ sym r.0
  one_owner a b (inl q) (inr r) e = absurd (omega (arith, q.1, r.1))
  one_owner a b (inr q) (inl r) e = absurd (omega (arith, q.1, r.1))
  one_owner a b (inr q) (inr r) e = v.owned a b q.0 r.0 e

pub Later-allotted :
    (σ : Store) (c p a : ℕ) {h : KodArray} → σ.next ≤ p → Later σ c p a h → h.ptr < p + 1
Later-allotted σ c p a free (inl q) = omega (arith, q.1)
Later-allotted σ c p a free (inr q) = omega (arith, q.1)
