-- ===== src/StrBuilder/Refine.antt =====
-- A builder behaves as the list of the bytes that it holds.
use native.Mathlib.Decide.{dec_le}
use kodlang.Base.{
  inl, take-append-drop, ℕ, zero, suc, ◌+◌, ◌%◌, ◌<◌, ◌≤◌, ◌≡◌, refl, sym, ap, ap₂, ◌∙◌, Bytes,
  List, [], ◌∷◌, ◌++◌, Run, ok, ◌>>=◌, add_int64_lem, length, length-append, length-take,
  length-drop, memcpy_lem, store_lem, set, take, drop, take-append, append_assoc, leb, le→leb,
  lt→leb, if◌then◌else◌, arith,
}
use kodlang.Str.{KodStr, kod_str_from_bytes}
use kodlang.Str.Ops.{kod_str_from_bytes_lem}
use kodlang.Str.Repr.{str_of}
use kodlang.StrBuilder.{
  KodStrBuilder, kod_sb_new, kod_sb_append, kod_sb_append_byte, kod_sb_clear, kod_sb_to_str,
  kod_sb_len, Moved, reserve_moving, kod_sb_reserve, Op, append, append_byte, clear, step, run,
}
use kodlang.StrBuilder.Valid.{
  CapStep, Spends, limit, IsValid, contents, refused, Reserved, reserve-refused, reserve_moving_lem,
  kod_sb_new-IsValid,
}

-- The builder that the program means: bytes, at most `limit` of them.
unfoldable pub add_bytes : Bytes → Bytes → Run Bytes
add_bytes bs xs = if leb (length bs + length xs) limit then ok (bs ++ xs) else refused

unfoldable pub spec_step : Bytes → Op → Run Bytes
spec_step bs (append xs) = add_bytes bs xs
spec_step bs (append_byte b) = add_bytes bs (b % 256 ∷ [])
spec_step bs clear = ok []

unfoldable pub spec_run : Bytes → List Op → Run Bytes
spec_run bs [] = ok bs
spec_run bs (op ∷ ops) = do next ← spec_step bs op; spec_run next ops

-- A builder with `xs` behind the bytes of `sb`.
pub record Appended (sb : KodStrBuilder) (xs : Bytes) (sb' : KodStrBuilder) : Type 0 where
  pub valid : IsValid sb'
  pub len : sb'.len ≡ sb.len + length xs
  pub bytes : contents sb' ≡ contents sb ++ xs
  pub cap : CapStep sb (sb.len + length xs) sb'

length-contents : {sb : KodStrBuilder} → IsValid sb → length (contents sb) ≡ sb.len
length-contents {sb} v = length-take sb.len sb.buf ∙ omega arith

take-append-append :
    (xs ys zs : Bytes) (n m : ℕ)
    → n ≡ length xs
    → m ≡ length ys
    → take (n + m) (xs ++ (ys ++ zs)) ≡ xs ++ ys
take-append-append xs ys zs n m h k =
    ap (take (n + m)) (sym (append_assoc xs ys zs))
    ∙ take-append (n + m) (xs ++ ys) zs (omega (arith, length-append xs ys))

set-split : (xs : Bytes) (i v : ℕ) → i < length xs → set xs i v ≡ take i xs ++ v ∷ drop (i + 1) xs
set-split [] i v h = absurd (omega arith)
set-split (x ∷ xs) zero v h = refl
set-split (x ∷ xs) (suc i) v h =
    ap (λ r. x ∷ r) (set-split xs i v (omega arith))
    ∙ ap (λ k. x ∷ (take i xs ++ v ∷ drop k (x ∷ xs))) {x = suc (i + 1)} (omega arith)

-- `mid` with `xs` written behind its bytes.
abbrev written : KodStrBuilder → Bytes → KodStrBuilder
written mid xs = record mid {
  buf = take mid.len mid.buf ++ (xs ++ drop (mid.len + length xs) mid.buf);
  len = mid.len + length xs;
}

written-Appended :
    (sb mid : KodStrBuilder) (xs : Bytes)
    → sb.len + length xs ≤ limit
    → Reserved sb (length xs) mid
    → Appended sb xs (written mid xs)
written-Appended sb mid xs h r =
    let size = length-contents r.valid in
    let v = r.valid in
    let rest : Bytes = drop (mid.len + length xs) mid.buf in
    record {
      valid = record {
        block = omega (
          arith,
          size,
          r.len,
          r.room,
          v.block,
          length-append (contents mid) (xs ++ rest),
          length-append xs rest,
          length-drop (mid.len + length xs) mid.buf,
        );
        within = omega (arith, r.len, r.room);
        started = v.started;
        bounded = v.bounded;
        below = omega (arith, r.len);
      };
      len = ap (λ n. n + length xs) r.len;
      bytes =
          take-append-append (contents mid) xs rest mid.len (length xs) (sym size) refl
          ∙ ap (λ b. b ++ xs) r.bytes;
      cap = r.cap;
    }

module _ (junk : ℕ → ℕ) where
  append_lem :
      (sb : KodStrBuilder) (xs : Bytes)
      → IsValid sb
      → sb.len + length xs ≤ limit
      → (sb' : KodStrBuilder) × (m : Moved) × (kod_sb_append junk sb (str_of xs) ≡ ok sb')
        × Appended sb xs sb'
        × (reserve_moving junk sb (length xs) ≡ ok m)
        × Spends sb sb'.cap m
  unfolding kod_sb_append kod_sb_reserve
  append_lem sb xs v h =
      let (m, e, r, s) = reserve_moving_lem junk sb (length xs) v h in
      let mid = m.builder in
      (
        written mid xs,
        m,
        rw (
          e,
          memcpy_lem mid.buf mid.len (xs ++ 0 ∷ []) 0 (length xs)
              (omega (arith, r.len, r.room, r.valid.block))
              (omega (arith, length-append xs (0 ∷ []))),
          add_int64_lem mid.len (length xs) (omega (arith, r.len)),
          take-append (length xs) xs (0 ∷ []) refl,
        ),
        written-Appended sb mid xs h r,
        e,
        s,
      )

  append_byte_lem :
      (sb : KodStrBuilder) (b : ℕ)
      → IsValid sb
      → sb.len + 1 ≤ limit
      → (sb' : KodStrBuilder) × (m : Moved) × (kod_sb_append_byte junk sb b ≡ ok sb')
        × Appended sb (b % 256 ∷ []) sb'
        × (reserve_moving junk sb 1 ≡ ok m)
        × Spends sb sb'.cap m
  unfolding kod_sb_append_byte kod_sb_reserve
  append_byte_lem sb b v h =
      let (m, e, r, s) = reserve_moving_lem junk sb 1 v h in
      let mid = m.builder in
      (
        written mid (b % 256 ∷ []),
        m,
        rw (
          e,
          store_lem mid.buf mid.len (b % 256) (omega (arith, r.len, r.room, r.valid.block)),
          add_int64_lem mid.len 1 (omega (arith, r.len)),
          set-split mid.buf mid.len (b % 256) (omega (arith, r.len, r.room, r.valid.block)),
        ),
        written-Appended sb mid (b % 256 ∷ []) h r,
        e,
        s,
      )

-- How many bytes a call appends.
unfoldable pub size_of : Op → ℕ
size_of (append xs) = length xs
size_of (append_byte b) = 1
size_of clear = 0

-- What the growth of a call costs.
unfoldable pub moves : (ℕ → ℕ) → KodStrBuilder → Op → Run Moved
moves junk sb (append xs) = reserve_moving junk sb (length xs)
moves junk sb (append_byte b) = reserve_moving junk sb 1
moves junk sb clear = ok (record { builder = sb; abandoned = 0; copied = 0 })

-- What a call comes to: the specified bytes in a valid builder, or the panic of the specification.
pub data StepOutcome (junk : ℕ → ℕ) (sb : KodStrBuilder) (op : Op) : Type 0 where
  done :
      (sb' : KodStrBuilder) (m : Moved)
      → step junk sb op ≡ ok sb'
      → IsValid sb'
      → spec_step (contents sb) op ≡ ok (contents sb')
      → sb'.len ≤ sb.len + size_of op
      → CapStep sb (sb.len + size_of op) sb'
      → moves junk sb op ≡ ok m
      → Spends sb sb'.cap m
      → StepOutcome junk sb op
  stopped :
      step junk sb op ≡ refused → spec_step (contents sb) op ≡ refused → StepOutcome junk sb op

-- The same for a sequence of calls.
pub data RunOutcome (junk : ℕ → ℕ) (sb : KodStrBuilder) (ops : List Op) : Type 0 where
  finished :
      (sb' : KodStrBuilder)
      → run junk sb ops ≡ ok sb'
      → IsValid sb'
      → spec_run (contents sb) ops ≡ ok (contents sb')
      → RunOutcome junk sb ops
  aborted :
      run junk sb ops ≡ refused → spec_run (contents sb) ops ≡ refused → RunOutcome junk sb ops

add_bytes-ok :
    (bs xs : Bytes) (n : ℕ)
    → length bs ≡ n
    → n + length xs ≤ limit
    → add_bytes bs xs ≡ ok (bs ++ xs)
unfolding add_bytes
add_bytes-ok bs xs n e h = rw (le→leb (length bs + length xs) limit (omega arith))

add_bytes-refused :
    (bs xs : Bytes) (n : ℕ) → length bs ≡ n → limit < n + length xs → add_bytes bs xs ≡ refused
unfolding add_bytes
add_bytes-refused bs xs n e h = rw (lt→leb (length bs + length xs) limit (omega arith))

-- What a program reads off a builder in the end.
abbrev pub seen : ℕ → KodStr → Run (ℕ × KodStr)
seen n s = ok (n, s)

module _ (junk : ℕ → ℕ) where
  pub step_lem : (sb : KodStrBuilder) (op : Op) → IsValid sb → StepOutcome junk sb op
  unfolding size_of moves step spec_step kod_sb_clear kod_sb_append kod_sb_append_byte
  step_lem sb (append xs) v = elim (dec_le (sb.len + length xs) limit) [
    | yes h ↦
        let (sb', m, e, a, f, s) = append_lem junk sb xs v h in
        done sb' m e a.valid
          (add_bytes-ok (contents sb) xs sb.len (length-contents v) h ∙ ap ok (sym a.bytes))
          (omega (arith, a.len)) a.cap f s
    | no h ↦
        stopped (rw (reserve-refused junk sb (length xs) (omega arith) v.below))
          (add_bytes-refused (contents sb) xs sb.len (length-contents v) (omega arith))
  ]
  step_lem sb (append_byte b) v = elim (dec_le (sb.len + 1) limit) [
    | yes h ↦
        let (sb', m, e, a, f, s) = append_byte_lem junk sb b v h in
        done sb' m e a.valid
          (add_bytes-ok (contents sb) (b % 256 ∷ []) sb.len (length-contents v) h
            ∙ ap ok (sym a.bytes))
          (omega (arith, a.len)) a.cap f s
    | no h ↦
        stopped (rw (reserve-refused junk sb 1 (omega arith) v.below))
          (add_bytes-refused (contents sb) (b % 256 ∷ []) sb.len (length-contents v) (omega arith))
  ]
  step_lem sb clear v =
      done (kod_sb_clear sb) (record { builder = sb; abandoned = 0; copied = 0 }) refl
        (record {
          block = v.block;
          within = omega arith;
          started = v.started;
          bounded = v.bounded;
          below = omega arith;
        })
        refl (omega arith) (inl refl) refl (inl (refl, refl))

  pub run_lem : (ops : List Op) (sb : KodStrBuilder) → IsValid sb → RunOutcome junk sb ops
  unfolding run spec_run
  run_lem [] sb v = finished sb refl v refl
  run_lem (op ∷ ops) sb v = after (step_lem sb op v) (run_lem ops)
    where
      later :
          {sb' : KodStrBuilder}
          → step junk sb op ≡ ok sb'
          → spec_step (contents sb) op ≡ ok (contents sb')
          → RunOutcome junk sb' ops
          → RunOutcome junk sb (op ∷ ops)
      later e e' (finished end f w f') = finished end (rw e f) w (rw e' f')
      later e e' (aborted f f') = aborted (rw e f) (rw e' f')

      after :
          StepOutcome junk sb op
          → ((s : KodStrBuilder) → IsValid s → RunOutcome junk s ops)
          → RunOutcome junk sb (op ∷ ops)
      after (done sb' _ e v' e' _ _ _ _) ih = later e e' (ih sb' v')
      after (stopped e e') ih = aborted (rw e) (rw e')

  to_str_lem : {sb : KodStrBuilder} → IsValid sb → kod_sb_to_str junk sb ≡ ok (str_of (contents sb))
  unfolding kod_sb_to_str
  to_str_lem {sb} v =
      let size = length-contents v in
      ap₂ (kod_str_from_bytes junk) (sym (take-append-drop sb.len sb.buf)) (sym size)
      ∙ kod_str_from_bytes_lem junk (contents sb) (drop sb.len sb.buf) (omega arith)

  -- After any calls on a builder of kod_sb_new, kod_sb_len and kod_sb_to_str give the length and
  -- the string of the bytes appended since the last clear, in order, a single byte by its low 8
  -- bits. The calls panic exactly where one would take the length past INT64_MAX / 4, and no call
  -- has undefined behaviour or runs out of fuel.
  pub builder_refines :
      (ops : List Op)
      → (do sb ← run junk (kod_sb_new junk) ops; s ← kod_sb_to_str junk sb; seen (kod_sb_len sb) s)
        ≡ (do bs ← spec_run [] ops; seen (length bs) (str_of bs))
  unfolding kod_sb_len kod_sb_new
  builder_refines ops = by_outcome (run_lem ops (kod_sb_new junk) (kod_sb_new-IsValid junk))
    where
      by_outcome :
          RunOutcome junk (kod_sb_new junk) ops
          → (do
            sb ← run junk (kod_sb_new junk) ops
            s ← kod_sb_to_str junk sb
            seen (kod_sb_len sb) s)
            ≡ (do bs ← spec_run [] ops; seen (length bs) (str_of bs))
      by_outcome (finished sb e v e') = rw (e, to_str_lem v, e', length-contents v)
      by_outcome (aborted e e') = rw (e, e')
