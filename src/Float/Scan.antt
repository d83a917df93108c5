-- ===== src/Float/Scan.antt =====
-- `kod_f64_valid` as a function of the bytes that are left.
use kodlang.Base.{
  Bool-cases, ℕ, zero, suc, ◌+◌, ◌<◌, ◌≡◌, inl, inr, refl, sym, subst, ap, ◌∙◌, Bytes, [], ◌∷◌,
  ◌++◌, Option, none, some, Bool, true, false, Run, ok, ◌>>=◌, load_lem, length, length-append,
  append_assoc, get_elem?, get_elem?-append_right, lt→ltb, le→ltb, ◌==◌, if◌then◌else◌, arith,
}
use kodlang.Str.Repr.{str_of}
use kodlang.Float.{
  is_digit, is_sign, is_point, is_e, holds, skip_sign, digits_loop, mantissa, exponent,
  kod_f64_valid,
}

-- At `i`, `rest` is left of the `n` bytes at `p`.
pub record View (p : Bytes) (n i : ℕ) (rest : Bytes) : Type 0 where
  pub before : Bytes
  pub split : p ≡ before ++ (rest ++ 0 ∷ [])
  pub here : i ≡ length before
  pub size : n ≡ length before + length rest

View-next : {p : Bytes} {n i c : ℕ} {rest : Bytes} → View p n i (c ∷ rest) → View p n (i + 1) rest
View-next {c = c} {rest} v = record {
  before = v.before ++ c ∷ [];
  split = v.split ∙ sym (append_assoc v.before (c ∷ []) (rest ++ 0 ∷ []));
  here = omega (arith, v.here, length-append v.before (c ∷ []));
  size = omega (arith, v.size, length-append v.before (c ∷ []));
}

abbrev pub head_is : (ℕ → Bool) → Bytes → Bool
head_is test [] = false
head_is test (c ∷ rest) = test c

holds_lem :
    (test : ℕ → Bool) {p : Bytes} {n i : ℕ} (rest : Bytes)
    → View p n i rest
    → holds test p n i ≡ ok (head_is test rest)
unfolding holds
holds_lem test {p} {n} {i} [] v = rw (le→ltb i n (omega (arith, v.here, v.size))) refl
holds_lem test {p} {n} {i} (c ∷ rest) v =
    let found : get_elem? p i ≡ some c =
      ap (λ q. get_elem? q i) v.split
      ∙ get_elem?-append_right i v.before (c ∷ rest ++ 0 ∷ []) v.here in
    rw (lt→ltb i n (omega (arith, v.here, v.size)), load_lem p i found) refl

-- The bytes behind a byte that passes, and behind all digits, with their number.
abbrev pub next_if : (ℕ → Bool) → Bytes → Bytes
next_if test [] = []
next_if test (c ∷ rest) = if test c then rest else c ∷ rest

abbrev pub digit_count : Bytes → ℕ
digit_count [] = 0
digit_count (c ∷ rest) = let more = digit_count rest in if is_digit c then suc more else 0

abbrev pub after_digits : Bytes → Bytes
after_digits [] = []
after_digits (c ∷ rest) = let more = after_digits rest in if is_digit c then more else c ∷ rest

step-View :
    {p : Bytes} {n i c : ℕ} {rest : Bytes} (b : Bool)
    → View p n i (c ∷ rest)
    → View p n (if b then i + 1 else i) (if b then rest else c ∷ rest)
step-View true v = View-next v
step-View false v = v

next-View :
    (test : ℕ → Bool) {p : Bytes} {n i : ℕ} (rest : Bytes)
    → View p n i rest
    → View p n (if head_is test rest then i + 1 else i) (next_if test rest)
next-View test [] v = v
next-View test (c ∷ rest) v = step-View (test c) v

skip_sign_lem :
    {p : Bytes} {n i : ℕ} (rest : Bytes)
    → View p n i rest
    → (j : ℕ) × (skip_sign p n i ≡ ok j) × View p n j (next_if is_sign rest)
unfolding skip_sign
skip_sign_lem {i = i} rest v = (
  _,
  ap (λ r. r >>= λ b. ok (if b then i + 1 else i)) (holds_lem is_sign rest v),
  next-View is_sign rest v,
)

digits_loop_lem :
    {p : Bytes} {n : ℕ} (fuel count : ℕ) (rest : Bytes) {i : ℕ}
    → View p n i rest
    → length rest < fuel
    → (j : ℕ) × (digits_loop fuel p n i count ≡ ok (j, count + digit_count rest))
      × View p n j (after_digits rest)
unfolding digits_loop
digits_loop_lem zero count rest v h = absurd (omega arith)
digits_loop_lem (suc fuel) count [] {i} v h =
    (i, rw (holds_lem is_digit [] v) (ap (λ m. ok (i, m)) {x = count} (omega arith)), v)
digits_loop_lem (suc fuel) count (c ∷ rest) {i} v h = elim (Bool-cases (is_digit c)) [
  | inl d ↦
      let (j, e, w) = digits_loop_lem fuel (count + 1) rest (View-next v) (omega arith) in
      (
        j,
        rw (holds_lem is_digit (c ∷ rest) v, d, e)
            (ap (λ m. ok (j, m)) {x = count + 1 + digit_count rest} (omega arith)),
        rw d w,
      )
  | inr d ↦ (
    i,
    rw (holds_lem is_digit (c ∷ rest) v, d) (ap (λ m. ok (i, m)) {x = count} (omega arith)),
    rw d v,
  )
]

at_next :
    (test : ℕ → Bool) {p : Bytes} {n i : ℕ} (rest : Bytes)
    → View p n i rest
    → head_is test rest ≡ true
    → View p n (i + 1) (next_if test rest)
at_next test {p} {n} {i} rest v d =
    subst (λ b. View p n (if b then i + 1 else i) (next_if test rest)) d (next-View test rest v)

-- The number of digits in front and behind a point, and the bytes behind them.
abbrev pub with_point : Bool → ℕ → Bytes → ℕ × Bytes
with_point true c r = (c + digit_count (next_if is_point r), after_digits (next_if is_point r))
with_point false c r = (c, r)

abbrev pub mantissa_of : Bytes → ℕ × Bytes
mantissa_of rest =
    with_point (head_is is_point (after_digits rest)) (digit_count rest) (after_digits rest)

with_point_lem :
    {p : Bytes} {n : ℕ} (i : ℕ) {j c : ℕ} (b : Bool) (r : Bytes)
    → head_is is_point r ≡ b
    → digits_loop (n + 1) p n i 0 ≡ ok (j, c)
    → View p n j r
    → (k : ℕ) × (mantissa p n i ≡ ok (k, (with_point b c r).0)) × View p n k (with_point b c r).1
unfolding mantissa
with_point_lem {n = n} i {c = c} true r d e w =
    let u = at_next is_point r w d in
    let (k, f, x) = digits_loop_lem (n + 1) c (next_if is_point r) u (omega (arith, u.size)) in
    (k, rw (e, holds_lem is_point r w, d, f) refl, x)
with_point_lem i {j} false r d e w = (j, rw (e, holds_lem is_point r w, d) refl, w)

mantissa_lem :
    {p : Bytes} {n i : ℕ} (rest : Bytes)
    → View p n i rest
    → (j : ℕ) × (mantissa p n i ≡ ok (j, (mantissa_of rest).0)) × View p n j (mantissa_of rest).1
mantissa_lem {n = n} {i} rest v =
    let (j, e, w) = digits_loop_lem (n + 1) 0 rest v (omega (arith, v.size)) in
    let r = after_digits rest in
    with_point_lem i (head_is is_point r) r refl
      (e ∙ ap (λ m. ok (j, m)) {x = 0 + digit_count rest} (omega arith)) w

-- The bytes behind an optional exponent; `none` for one without digits.
abbrev pub digits_of : Bytes → Option Bytes
digits_of d = if digit_count d == 0 then none else some (after_digits d)

abbrev pub with_e : Bool → Bytes → Option Bytes
with_e true rest = digits_of (next_if is_sign (next_if is_e rest))
with_e false rest = some rest

abbrev pub exponent_of : Bytes → Option Bytes
exponent_of rest = with_e (head_is is_e rest) rest

abbrev Reaches : Bytes → ℕ → Run (Option ℕ) → Option Bytes → Type 0
Reaches p n r none = r ≡ ok none
Reaches p n r (some rest) = (k : ℕ) × (r ≡ ok (some k)) × View p n k rest

digits_of_lem :
    {p : Bytes} {n k : ℕ} (b : Bool) (d : Bytes)
    → View p n k (after_digits d)
    → Reaches p n (ok (if b then none else some k)) (if b then none else some (after_digits d))
digits_of_lem true d v = refl
digits_of_lem {k = k} false d v = (k, refl, v)

with_e_lem :
    {p : Bytes} {n i : ℕ} (b : Bool) (rest : Bytes)
    → head_is is_e rest ≡ b
    → View p n i rest
    → Reaches p n (exponent p n i) (with_e b rest)
unfolding exponent
with_e_lem {p} {n} {i} true rest d v =
    let (j, e, w) = skip_sign_lem (next_if is_e rest) (at_next is_e rest v d) in
    let t = next_if is_sign (next_if is_e rest) in
    let (k, f, x) = digits_loop_lem (n + 1) 0 t w (omega (arith, w.size)) in
    let g : digits_loop (n + 1) p n j 0 ≡ ok (k, digit_count t) =
      f ∙ ap (λ m. ok (k, m)) {x = 0 + digit_count t} (omega arith) in
    rw (holds_lem is_e rest v, d, e, g) (digits_of_lem (digit_count t == 0) t x)
with_e_lem {i = i} false rest d v = (i, rw (holds_lem is_e rest v, d) refl, v)

-- Whether the bytes are a number.
abbrev pub is_empty : Bytes → Bool
is_empty [] = true
is_empty (c ∷ rest) = false

abbrev pub all_used : Option Bytes → Bool
all_used none = false
all_used (some rest) = is_empty rest

abbrev pub accepts : Bytes → Bool
accepts xs =
    let m = mantissa_of (next_if is_sign xs) in
    if m.0 == 0 then false else all_used (exponent_of m.1)

used_lem : {p : Bytes} {n k : ℕ} (rest : Bytes) → View p n k rest → (k == n) ≡ is_empty rest
used_lem [] v = let same = v.size in let at = v.here in ground arith
used_lem (c ∷ rest) v = let same = v.size in let at = v.here in ground arith

abbrev pub flag : Bool → ℕ
flag b = if b then 1 else 0

abbrev answer : ℕ → Run (Option ℕ) → Run ℕ
answer n r = r >>= λ e. elim e [ none ↦ ok 0 | some k ↦ ok (flag (k == n)) ]

finish_lem :
    (p : Bytes) (n : ℕ) (empty : Bool) (r : Run (Option ℕ)) (o : Option Bytes)
    → Reaches p n r o
    → (if empty then ok 0 else answer n r) ≡ ok (flag (if empty then false else all_used o))
finish_lem p n true r o h = refl
finish_lem p n false r none h = ap (answer n) h
finish_lem p n false r (some rest) (k, h, v) =
    ap (answer n) h ∙ ap (λ b. ok (flag b)) (used_lem rest v)

pub kod_f64_valid-accepts :
    (xs : Bytes) → kod_f64_valid (str_of xs) ≡ ok (if accepts xs then 1 else 0)
unfolding kod_f64_valid
kod_f64_valid-accepts xs =
    let start : View (xs ++ 0 ∷ []) (length xs) 0 xs = record {
      before = [];
      split = refl;
      here = refl;
      size = omega arith;
    } in
    let (j, e, w) = skip_sign_lem xs start in
    let (k, f, x) = mantissa_lem (next_if is_sign xs) w in
    let m = mantissa_of (next_if is_sign xs) in
    rw (e, f)
      (finish_lem (xs ++ 0 ∷ []) (length xs) (m.0 == 0) _ (exponent_of m.1)
        (with_e_lem (head_is is_e m.1) m.1 refl x))
