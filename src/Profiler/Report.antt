-- ===== src/Profiler/Report.antt =====
-- What the accessors of the profiler return after a session.
use kodlang.Base.{
  ℕ, zero, suc, ◌+◌, ◌*◌, ◌≤◌, ◌<◌, ◌≡◌, ◌⊎◌, refl, ap, subst, ◌∙◌, List, [], ◌∷◌, map, Option, ok,
  length, get_elem?, length-replicate, some, none, none-ne-some, eq_of_some-eq-some, load, load_lem,
  leb, if◌then◌else◌, arith, inl, inr, false, le→leb, lt→leb, ◌||◌,
}
use kodlang.Base.Int.{ℤ, pos, negsuc, ltb_ℤ}
use kodlang.Profiler.{
  Profile, initial, Signal, sample_all, index, _profiling_start, _profiling_n_samples,
  _profiling_sample_depth, _profiling_sample_frame,
}
use kodlang.Profiler.Samples.{Holds, Rows, samples, sample_all_lem}
use kodlang.Profiler.Walk.{At}

abbrev pub or_else {ℓ} : {A : Type ℓ} → A → Option A → A
or_else d none = d
or_else d (some v) = v

-- Sample `idx` of some samples, empty out of range, and entry `idx` of a sample, 0 out of range.
abbrev pub sample_at : List (List ℕ) → ℤ → List ℕ
sample_at xss (pos i) = or_else [] (get_elem? xss i)
sample_at xss (negsuc i) = []

abbrev pub entry_at : List ℕ → ℤ → ℕ
entry_at xs (pos i) = or_else 0 (get_elem? xs i)
entry_at xs (negsuc i) = 0

-- An index in range has an element, another has none.
get_elem?-cases {ℓ} :
    {A : Type ℓ} (xs : List A) (i : ℕ)
    → ((x : A) × (get_elem? xs i ≡ some x) × (i < length xs))
      ⊎ ((get_elem? xs i ≡ none) × (length xs ≤ i))
get_elem?-cases [] i = inr (refl, omega arith)
get_elem?-cases (x ∷ xs) zero = inl (x, refl, omega arith)
get_elem?-cases (x ∷ xs) (suc i) = elim (get_elem?-cases xs i) [
  | inl p ↦ inl (p.0, p.1, omega (arith, p.2))
  | inr p ↦ inr (p.0, omega (arith, p.1))
]

At-get_elem? :
    (i j : ℕ) (xs fs : List ℕ) {v : ℕ}
    → At i xs fs
    → get_elem? xs j ≡ some v
    → get_elem? fs (i + j) ≡ some v
At-get_elem? i j [] fs a e = absurd (none-ne-some e)
At-get_elem? i zero (x ∷ xs) fs a e = ap (get_elem? fs) {y = i} (omega arith) ∙ a.0 ∙ e
At-get_elem? i (suc j) (x ∷ xs) fs a e =
    ap (get_elem? fs) {y = i + 1 + j} (omega arith) ∙ At-get_elem? (i + 1) j xs fs a.1 e

Rows-get_elem? :
    (i j : ℕ) (xss : List (List ℕ)) (fs : List ℕ) {xs : List ℕ}
    → Rows i xss fs
    → get_elem? xss j ≡ some xs
    → At ((i + j) * 32) xs fs
Rows-get_elem? i j [] fs r e = absurd (none-ne-some e)
Rows-get_elem? i zero (ys ∷ xss) fs {xs} r e =
    subst (λ k. At (k * 32) xs fs) {x = i} {y = i + 0} (omega arith)
      (subst (λ zs. At (i * 32) zs fs) (eq_of_some-eq-some e) r.1)
Rows-get_elem? i (suc j) (ys ∷ xss) fs {xs} r e =
    subst (λ k. At (k * 32) xs fs) (omega arith) (Rows-get_elem? (i + 1) j xss fs r.2 e)

get_elem?-map :
    (xss : List (List ℕ)) (j : ℕ) {xs : List ℕ}
    → get_elem? xss j ≡ some xs
    → get_elem? (map length xss) j ≡ some (length xs)
get_elem?-map [] j e = absurd (none-ne-some e)
get_elem?-map (ys ∷ xss) zero e = ap (λ zs. some (length zs)) (eq_of_some-eq-some e)
get_elem?-map (ys ∷ xss) (suc j) e = get_elem?-map xss j e

not_negative : (i : ℕ) → ltb_ℤ (pos i) (pos 0) ≡ false
not_negative i = ground arith

module _ (s : Profile) (xss : List (List ℕ)) (v : Holds s xss) where
  depth_at :
      (i : ℕ) {xs : List ℕ} → get_elem? xss i ≡ some xs → get_elem? s.depths i ≡ some (length xs)
  depth_at i e =
      ap (get_elem? s.depths) {x = i} {y = 0 + i} (omega arith)
      ∙ At-get_elem? 0 i (map length xss) s.depths v.depths (get_elem?-map xss i e)

  sample_depth_lem : (idx : ℤ) → _profiling_sample_depth idx s ≡ ok (length (sample_at xss idx))
  unfolding _profiling_sample_depth index
  sample_depth_lem (negsuc i) = ground arith
  sample_depth_lem (pos i) = elim (get_elem?-cases xss i) [
    | inl (xs, e, h) ↦ rw (
      not_negative i,
      lt→leb s.count i (omega (arith, v.count)),
      load_lem s.depths i (depth_at i e),
      e,
    )
    | inr (e, h) ↦ rw (not_negative i, le→leb s.count i (omega (arith, v.count)), e)
  ]

  row-At : (i : ℕ) {xs : List ℕ} → get_elem? xss i ≡ some xs → At (i * 32) xs s.frames
  row-At i {xs} e =
      subst (λ k. At (k * 32) xs s.frames) {x = 0 + i} {y = i} (omega arith)
        (Rows-get_elem? 0 i xss s.frames v.rows e)

  entry_lem :
      (i j : ℕ) {xs : List ℕ}
      → get_elem? xss i ≡ some xs
      → (if ltb_ℤ (pos j) (pos 0) || leb (length xs) j then ok 0 else load s.frames (i * 32 + j))
        ≡ ok (or_else 0 (get_elem? xs j))
  entry_lem i j {xs} e = elim (get_elem?-cases xs j) [
    | inl (x, f, h) ↦
        let there = At-get_elem? (i * 32) j xs s.frames (row-At i e) f in
        rw (
          not_negative j,
          lt→leb (length xs) j (omega arith),
          load_lem s.frames (i * 32 + j) there,
          f,
        )
    | inr (f, h) ↦ rw (not_negative j, le→leb (length xs) j h, f)
  ]

  sample_frame_lem :
      (idx at : ℤ) → _profiling_sample_frame idx at s ≡ ok (entry_at (sample_at xss idx) at)
  unfolding _profiling_sample_frame index
  sample_frame_lem (negsuc i) (pos j) = ground arith
  sample_frame_lem (negsuc i) (negsuc j) = ground arith
  sample_frame_lem (pos i) (pos j) = elim (get_elem?-cases xss i) [
    | inl (xs, e, h) ↦
        rw
          (
            not_negative i,
            lt→leb s.count i (omega (arith, v.count)),
            load_lem s.depths i (depth_at i e),
            e,
          )
          (entry_lem i j e)
    | inr (e, h) ↦ rw (not_negative i, le→leb s.count i (omega (arith, v.count)), e)
  ]
  sample_frame_lem (pos i) (negsuc j) = elim (get_elem?-cases xss i) [
    | inl (xs, e, h) ↦
        rw
          (
            not_negative i,
            lt→leb s.count i (omega (arith, v.count)),
            load_lem s.depths i (depth_at i e),
          )
          (ground arith)
    | inr (e, h) ↦ rw (not_negative i, le→leb s.count i (omega (arith, v.count)))
  ]

initial-Holds : Holds initial []
unfolding initial
initial-Holds = record {
  count = refl;
  few = omega arith;
  depths_size = length-replicate {A = ℕ} 4096 0;
  frames_size = length-replicate {A = ℕ} 131072 0;
  depths = tt;
  rows = tt;
}

restart-Holds : (s : Profile) (xss : List (List ℕ)) → Holds s xss → Holds (_profiling_start s) []
unfolding _profiling_start
restart-Holds s xss v = record {
  count = refl;
  few = omega arith;
  depths_size = v.depths_size;
  frames_size = v.frames_size;
  depths = tt;
  rows = tt;
}

-- Through any signals before and after _profiling_start, no write leaves the buffers, and the
-- accessors then report exactly the samples of the first 4096 signals after it: their number, and
-- for every signed index the depth and the entries of a sample, with 0 out of range. A sample is
-- the program counter and then the return addresses up the chain of frames, 32 entries at most.
pub sample_all_report :
    (before gs : List Signal) (idx at : ℤ)
    → (s₀ s : Profile) × (sample_all before initial ≡ ok s₀)
      × (sample_all gs (_profiling_start s₀) ≡ ok s)
      × (_profiling_n_samples s ≡ length (samples gs))
      × (_profiling_sample_depth idx s ≡ ok (length (sample_at (samples gs) idx)))
      × (_profiling_sample_frame idx at s ≡ ok (entry_at (sample_at (samples gs) idx) at))
unfolding _profiling_n_samples
sample_all_report before gs idx at =
    let (s₀, e₀, v₀) = sample_all_lem before initial [] initial-Holds in
    let (s, e, v) =
      sample_all_lem gs (_profiling_start s₀) [] (restart-Holds s₀ (samples before) v₀) in
    (
      s₀,
      s,
      e₀,
      e,
      v.count,
      sample_depth_lem s (samples gs) v idx,
      sample_frame_lem s (samples gs) v idx at,
    )
