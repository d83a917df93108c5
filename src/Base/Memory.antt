-- ===== src/Base/Memory.antt =====
-- Objects in memory as lists of their elements, and the C library's copies between them.
use Prim.Native.Nat.{ℕ, zero, suc, ◌+◌, ◌≤◌, ◌<◌}
use mathlib.Core.Path.{◌≡◌, refl, ap, ap₂, sym, ◌∙◌}
use mathlib.Core.Bool.{◌&&◌}
use mathlib.Core.List.{List, [], ◌∷◌, ◌++◌, append_assoc}
use mathlib.Core.Option.{none, some}
use native.Mathlib.Omega.{arith}
use kodlang.Base.Flags.{leb, ltb, if◌then◌else◌, le→leb}
use kodlang.Base.Lists.{
  length, take, take-append-drop, take_all, drop, length-take, length-append, take-append,
  drop-append,
}
use kodlang.Base.Lookup.{get_elem?, set}
use kodlang.Base.Outcome.{Run, ok, undefined}

module _ {ℓ} {A : Type ℓ} where
  -- `n` elements of memory that nothing has written: element `i` holds `junk i`.
  abbrev pub fresh_from : (ℕ → A) → ℕ → ℕ → List A
  fresh_from junk i zero = []
  fresh_from junk i (suc n) = junk i ∷ fresh_from junk (i + 1) n

  pub length-fresh_from : (junk : ℕ → A) (i n : ℕ) → length (fresh_from junk i n) ≡ n
  length-fresh_from junk i zero = refl
  length-fresh_from junk i (suc n) = ap suc (length-fresh_from junk (i + 1) n)

  unfoldable pub fresh : (ℕ → A) → ℕ → List A
  fresh junk n = fresh_from junk 0 n

  pub length-fresh : (junk : ℕ → A) (n : ℕ) → length (fresh junk n) ≡ n
  unfolding fresh
  length-fresh junk n = length-fresh_from junk 0 n

  -- `memcpy(dst + di, src + si, n)`, counted in elements.
  unfoldable pub memcpy : List A → ℕ → List A → ℕ → ℕ → Run (List A)
  memcpy dst di src si n =
      if leb (di + n) (length dst) && leb (si + n) (length src)
      then ok (take di dst ++ (take n (drop si src) ++ drop (di + n) dst))
      else undefined

  pub memcpy_lem :
      (dst : List A) (di : ℕ) (src : List A) (si n : ℕ)
      → di + n ≤ length dst
      → si + n ≤ length src
      → memcpy dst di src si n ≡ ok (take di dst ++ (take n (drop si src) ++ drop (di + n) dst))
  unfolding memcpy
  memcpy_lem dst di src si n h k = rw (le→leb _ _ h, le→leb _ _ k)

  -- A copy over the middle part of an object.
  pub memcpy_at :
      (pre mid post src : List A) (di si n : ℕ)
      → di ≡ length pre
      → n ≡ length mid
      → si + n ≤ length src
      → memcpy (pre ++ (mid ++ post)) di src si n ≡ ok (pre ++ (take n (drop si src) ++ post))
  memcpy_at pre mid post src di si n hd hn k =
      let room : di + n ≤ length (pre ++ (mid ++ post)) =
        omega (arith, length-append pre (mid ++ post), length-append mid post) in
      let behind : drop (di + n) (pre ++ (mid ++ post)) ≡ post =
        ap (drop (di + n)) (sym (append_assoc pre mid post))
        ∙ drop-append (di + n) (pre ++ mid) post (omega (arith, length-append pre mid)) in
      memcpy_lem (pre ++ (mid ++ post)) di src si n room k
      ∙ ap₂ (λ a b. ok (a ++ (take n (drop si src) ++ b))) (take-append di pre (mid ++ post) hd)
          behind

  -- `p[i]` and `p[i] = v`.
  unfoldable pub load : List A → ℕ → Run A
  load p i = elim (get_elem? p i) [ none ↦ undefined | some v ↦ ok v ]

  pub load_lem : (p : List A) (i : ℕ) {v : A} → get_elem? p i ≡ some v → load p i ≡ ok v
  unfolding load
  load_lem p i h = rw (h, load)

  unfoldable pub store : List A → ℕ → A → Run (List A)
  store p i v = if ltb i (length p) then ok (set p i v) else undefined

  pub store_lem : (p : List A) (i : ℕ) (v : A) → i < length p → store p i v ≡ ok (set p i v)
  unfolding store
  store_lem p i v h = ground arith

  -- A copy of all of `xs` to the bytes behind `done`.
  pub memcpy-append :
      (done old xs : List A) (at n : ℕ)
      → at ≡ length done
      → n ≡ length xs
      → n ≤ length old
      → memcpy (done ++ old) at xs 0 n ≡ ok (done ++ (xs ++ drop n old))
  memcpy-append done old xs at n e h k =
      ap (λ o. memcpy (done ++ o) at xs 0 n) (sym (take-append-drop n old))
      ∙ memcpy_at done (take n old) (drop n old) xs at 0 n e (omega (arith, length-take n old))
          (omega arith)
      ∙ ap (λ a. ok (done ++ (a ++ drop n old))) (take_all n xs (omega arith))

  -- A copy to the front of memory that nothing has written.
  pub memcpy-fresh :
      (junk : ℕ → A) (size : ℕ) (xs : List A)
      → length xs ≤ size
      → memcpy (fresh junk size) 0 xs 0 (length xs)
        ≡ ok (xs ++ drop (0 + length xs) (fresh junk size))
  memcpy-fresh junk size xs h =
      memcpy_lem (fresh junk size) 0 xs 0 (length xs) (omega (arith, length-fresh junk size))
        (omega arith)
      ∙ ap (λ b. ok (b ++ drop (0 + length xs) (fresh junk size)))
          (take_all (length xs) xs (omega arith))
