-- ===== src/Files/Tests.antt =====
-- A file of four bytes, and a stdin that gives two bytes at a time.
use kodlang.Base.{
  Bool-cases, ℕ, ◌<◌, ◌≤◌, min, ◌≡◌, inl, inr, refl, sym, ap, Bytes, [], ◌∷◌, ◌++◌, Bool, true,
  false, some, ok, codes, length, length-take, take, drop, take-append-drop, take_all, leb, arith,
  memcpy, store, fresh, add_int64, eq_of_some-eq-some,
}
use kodlang.Str.{kod_str_new}
use kodlang.Str.Repr.{str_of}
use kodlang.Files.{Stdio, Held, exact_loop, read_stdin_exact, read_file}
use kodlang.Files.Streams.{View, ReadsFull, Full, ReadsPieces, Piece}
use kodlang.Files.Reading.{FileOutcome, read_file_lem}
use kodlang.Files.Exact.{read_stdin_exact_lem}

-- A stream is what is left of it.
abbrev plain : Stdio Bytes
plain = record {
  fopen = λ name. some (codes "text");
  fread = λ n z. (take n z, drop n z);
  ferror = λ z. false;
}

abbrev pairs : Stdio Bytes
pairs = record plain { fread = λ n z. (take (min n 2) z, drop (min n 2) z) }

abbrev view : View Bytes
view = record { text = λ z. z; broken = λ z. false }

plain-Full : (n : ℕ) (z : Bytes) → 0 < n → Full view plain n z (take n z, drop n z)
plain-Full n z h = elim (Bool-cases (leb n (length z))) [
  | inl enough ↦
      let long : n ≤ length z = ground (arith, enough) in
      inl (omega (arith, length-take n z), sym (take-append-drop n z), refl)
  | inr short ↦
      let few : length z < n = ground (arith, short) in
      inr (omega (arith, length-take n z), sym (take_all n z (omega arith)), refl)
]

plain-ReadsFull : ReadsFull view plain
plain-ReadsFull = record { step = plain-Full }

no_bytes : (z : Bytes) → length z ≡ 0 → z ≡ []
no_bytes [] h = refl
no_bytes (x ∷ z) h = absurd (omega arith)

pairs-Piece :
    (n : ℕ) (z : Bytes) → 0 < n → Piece view pairs n z (take (min n 2) z, drop (min n 2) z)
pairs-Piece n z h =
    let size = length-take (min n 2) z in
    (
      omega (arith, size),
      sym (take-append-drop (min n 2) z),
      λ e. no_bytes z (omega (arith, size, e, h)),
    )

pairs-ReadsPieces : ReadsPieces view pairs
pairs-ReadsPieces = record { step = pairs-Piece }

abbrev zeros : ℕ → ℕ
zeros i = 0

abbrev begin : Held
begin = record { streams = 1; buffers = 0 }

abbrev served : ℕ → Bool
served size = true

read_file_lem_example :
    FileOutcome view served
      (some (codes "text"))
      begin
      (read_file plain zeros served 9 (str_of (codes "a")) begin)
read_file_lem_example =
    read_file_lem plain view zeros served plain-ReadsFull 9 (codes "a") [] 1 begin
      ((λ e. absurd (omega (arith, e))), tt)
      (λ z e.
        let same = ap length (eq_of_some-eq-some e) in (omega (arith, same), omega (arith, same)))

read_stdin_exact_lem_example :
    (tail : Bytes) × (rest : Bytes) × (read_stdin_exact pairs zeros 3 (codes "texts")
      ≡ ok (record { buf = codes "tex" ++ 0 ∷ tail; len = 3 }, rest))
    × (3 ≤ 5 → tail ≡ [])
    × (rest ≡ codes "ts")
read_stdin_exact_lem_example =
    read_stdin_exact_lem pairs view zeros pairs-ReadsPieces 3 (codes "texts") (omega arith)

cut_short :
    read_stdin_exact pairs zeros 7 (codes "texts")
    ≡ ok (record { buf = codes "texts" ++ 0 ∷ 0 ∷ 0 ∷ []; len = 5 }, [])
unfolding read_stdin_exact exact_loop kod_str_new memcpy store fresh add_int64
cut_short = refl
