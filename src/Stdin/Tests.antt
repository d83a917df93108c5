-- ===== src/Stdin/Tests.antt =====
-- Lines from stdin, and the theorem at one.
use kodlang.Base.{
  ℕ, ◌≡◌, refl, Bytes, [], ◌∷◌, ◌++◌, true, ok, codes, add_int64, fresh, memcpy, load, store, arith,
}
use kodlang.Stdin.{roomy, put_char, line_loop, strip_cr, read_stdin_line}
use kodlang.Stdin.Line.{without_cr, read_stdin_line_lem}
use kodlang.Str.{kod_str_new}
use kodlang.Str.Repr.{str_of}

abbrev zeros : ℕ → ℕ
zeros i = 0

abbrev header_line : Bytes
header_line = codes "Length: 2" ++ 13 ∷ []

line_runs :
    read_stdin_line zeros (header_line ++ 10 ∷ codes "hi")
    ≡ ok (record { value = str_of (codes "Length: 2"); rest = codes "hi" })
unfolding read_stdin_line line_loop roomy put_char strip_cr kod_str_new add_int64 fresh memcpy load
    store
line_runs = refl

read_stdin_line_lem_example :
    read_stdin_line zeros (header_line ++ 10 ∷ codes "hi")
    ≡ ok (record { value = str_of (without_cr header_line); rest = codes "hi" })
read_stdin_line_lem_example =
    read_stdin_line_lem zeros header_line (codes "hi") true (ground arith) (omega arith)
