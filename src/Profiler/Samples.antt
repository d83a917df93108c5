-- ===== src/Profiler/Samples.antt =====
-- The profiler's buffers as a list of samples.
use kodlang.Base.{
  ℕ, ◌+◌, ◌*◌, ◌≤◌, ◌<◌, ◌≡◌, refl, ap, subst, sym, ◌∙◌, List, [], ◌∷◌, ◌++◌, map, ok, length, take,
  set, length-set, length-append, length-map, append_assoc, append-nil, store_lem, leb, arith,
  Bool-cases, inl, inr, le→leb, lt→leb, take_all, take-append,
}
use kodlang.Profiler.{Profile, Signal, record_depth, kod_prof_handler, sample_all}
use kodlang.Profiler.Walk.{
  At, SameBelow, Written, then_more, no_more, chain, length-chain, walk_lem,
}

-- Each sample stands in its row.
abbrev pub Rows : ℕ → List (List ℕ) → List ℕ → Type 0
Rows i [] fs = Unit
Rows i (xs ∷ xss) fs = (length xs ≤ 32) × At (i * 32) xs fs × Rows (i + 1) xss fs

pub record Holds (s : Profile) (xss : List (List ℕ)) : Type 0 where
  pub count : s.count ≡ length xss
  pub few : length xss ≤ 4096
  pub depths_size : length s.depths ≡ 4096
  pub frames_size : length s.frames ≡ 131072
  pub depths : At 0 (map length xss) s.depths
  pub rows : Rows 0 xss s.frames

At-same :
    (i m : ℕ) (xs fs gs : List ℕ) → i + length xs ≤ m → SameBelow m fs gs → At i xs fs → At i xs gs
At-same i m [] fs gs h b a = tt
At-same i m (x ∷ xs) fs gs h b a =
    (b i (omega arith) ∙ a.0, At-same (i + 1) m xs fs gs (omega arith) b a.1)

pub At-append :
    (i j : ℕ) (xs ys fs : List ℕ) → j ≡ i + length xs → At i xs fs → At j ys fs → At i (xs ++ ys) fs
At-append i j [] ys fs e a b = subst (λ k. At k ys fs) (omega arith) b
At-append i j (x ∷ xs) ys fs e a b = (a.0, At-append (i + 1) j xs ys fs (omega arith) a.1 b)

Rows-same :
    (i m : ℕ) (xss : List (List ℕ)) (fs gs : List ℕ)
    → (i + length xss) * 32 ≤ m
    → SameBelow m fs gs
    → Rows i xss fs
    → Rows i xss gs
Rows-same i m [] fs gs h b r = tt
Rows-same i m (xs ∷ xss) fs gs h b (l, a, r) = (
  l,
  At-same (i * 32) m xs fs gs (omega arith) b a,
  Rows-same (i + 1) m xss fs gs (omega arith) b r,
)

Rows-append :
    (i j : ℕ) (xss : List (List ℕ)) (xs fs : List ℕ)
    → j ≡ i + length xss
    → Rows i xss fs
    → length xs ≤ 32
    → At (j * 32) xs fs
    → Rows i (xss ++ xs ∷ []) fs
Rows-append i j [] xs fs e r l a = (l, subst (λ k. At (k * 32) xs fs) (omega arith) a, tt)
Rows-append i j (ys ∷ xss) xs fs e (m, b, r) l a =
    (m, b, Rows-append (i + 1) j xss xs fs (omega arith) r l a)

map-append-length :
    (xss : List (List ℕ)) (xs : List ℕ)
    → map length (xss ++ xs ∷ []) ≡ map length xss ++ length xs ∷ []
map-append-length [] xs = refl
map-append-length (ys ∷ xss) xs = ap (λ r. length ys ∷ r) (map-append-length xss xs)

-- What a signal adds: the program counter, and 31 return addresses at most.
abbrev pub sample : Signal → List ℕ
sample g = g.pc ∷ chain g.word 31 g.fp

handler_room :
    (g : Signal) (s : Profile) (xss : List (List ℕ))
    → Holds s xss
    → length xss < 4096
    → (s' : Profile) × (kod_prof_handler g.word g.pc g.fp s ≡ ok s')
      × Holds s' (xss ++ sample g ∷ [])
unfolding kod_prof_handler record_depth
handler_room g s xss v h =
    let n : ℕ = length xss in
    let row : ℕ = s.count * 32 in
    let first : List ℕ = set s.frames row g.pc in
    let c = v.count in
    let size = v.frames_size in
    let (gs, e, w) =
      walk_lem g.word 31 row 1 g.fp (row + 1) first refl
        (omega (arith, length-set s.frames row g.pc)) in
    let depth : ℕ = 1 + length (chain g.word 31 g.fp) in
    let whole : Written row (sample g) s.frames gs =
      then_more row g.pc (chain g.word 31 g.fp) s.frames gs (omega arith) w in
    let deeper : List ℕ = set s.depths s.count depth in
    let noted : Written s.count (depth ∷ []) s.depths deeper =
      then_more s.count depth [] s.depths deeper (omega (arith, v.depths_size))
        (no_more (s.count + 1) deeper) in
    let old : At 0 (map length xss) deeper =
      At-same 0 s.count (map length xss) s.depths deeper (omega (arith, length-map xss length))
        noted.below v.depths in
    (
      record { frames = gs; depths = set s.depths s.count depth; count = s.count + 1 },
      rw (
        lt→leb 4096 s.count (omega arith),
        store_lem s.frames row g.pc (omega arith),
        e,
        store_lem s.depths s.count depth (omega (arith, v.depths_size)),
      ),
      record {
        count = omega (arith, length-append xss (sample g ∷ []));
        few = omega (arith, length-append xss (sample g ∷ []));
        depths_size = length-set s.depths s.count depth ∙ v.depths_size;
        frames_size = whole.size ∙ size;
        depths =
            subst (λ ds. At 0 ds deeper) (sym (map-append-length xss (sample g)))
              (At-append 0 s.count (map length xss) (length (sample g) ∷ []) deeper
                (omega (arith, length-map xss length)) old
                (subst (λ d. At s.count (d ∷ []) deeper) {x = depth} (omega arith) noted.there));
        rows =
            Rows-append 0 s.count xss (sample g) gs (omega arith)
              (Rows-same 0 row xss s.frames gs (omega arith) whole.below v.rows)
              (omega (arith, length-chain g.word 31 g.fp)) whole.there;
      },
    )

handler_full :
    (g : Signal) (s : Profile) (xss : List (List ℕ))
    → Holds s xss
    → length xss ≡ 4096
    → kod_prof_handler g.word g.pc g.fp s ≡ ok s
unfolding kod_prof_handler
handler_full g s xss v h = rw (le→leb 4096 s.count (omega (arith, v.count)))

abbrev pub samples : List Signal → List (List ℕ)
samples gs = take 4096 (map sample gs)

take-full :
    (xss : List (List ℕ)) (ys : List (List ℕ)) → length xss ≡ 4096 → take 4096 (xss ++ ys) ≡ xss
take-full xss ys h = take-append 4096 xss ys (sym h)

pub sample_all_lem :
    (gs : List Signal) (s : Profile) (xss : List (List ℕ))
    → Holds s xss
    → (s' : Profile) × (sample_all gs s ≡ ok s') × Holds s' (take 4096 (xss ++ map sample gs))
unfolding sample_all
sample_all_lem [] s xss v =
    (s, refl, subst (Holds s) (sym (ap (take 4096) (append-nil xss) ∙ take_all 4096 xss v.few)) v)
sample_all_lem (g ∷ gs) s xss v = elim (Bool-cases (leb 4096 (length xss))) [
  | inl full ↦
      let n : length xss ≡ 4096 = ground (arith, v.few, full) in
      let e : kod_prof_handler g.word g.pc g.fp s ≡ ok s = handler_full g s xss v n in
      let (s', f, w) = sample_all_lem gs s xss v in
      (
        s',
        rw e f,
        subst (Holds s')
            (take-full xss (map sample gs) n ∙ sym (take-full xss (sample g ∷ map sample gs) n)) w,
      )
  | inr room ↦
      let (s₁, e, v₁) = handler_room g s xss v (ground (arith, room)) in
      let (s', f, w) = sample_all_lem gs s₁ (xss ++ sample g ∷ []) v₁ in
      (
        s',
        rw e f,
        subst (λ yss. Holds s' (take 4096 yss)) (append_assoc xss (sample g ∷ []) (map sample gs))
            w,
      )
]
