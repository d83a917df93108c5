-- ===== src/Panic/Tests.antt =====
-- An index out of bounds, with text that is still in the buffer.
use kodlang.Base.{◌≡◌, refl, ok, codes, Bytes, [], if◌then◌else◌, ◌==◌}
use kodlang.Base.Int.{ℤ, pos}
use kodlang.Str.Repr.{str_of}
use kodlang.Testing.{write_err, fflush}
use kodlang.Panic.{write_message, kod_eprint, kod_index_oob}

abbrev digit : ℤ → Bytes
digit (pos n) = if n == 3 then codes "3" else codes "2"
digit _ = []

out_of_bounds :
    (kod_index_oob digit
      (codes "main")
      (pos 3)
      (pos 2)
      (record { place = []; buffered = codes "hi " })).console.place
    ≡ codes "hi panic: index 3 out of bounds for array of length 2\nmain"
unfolding kod_index_oob write_err fflush
out_of_bounds = refl

prints :
    kod_eprint (str_of (codes "no")) (record { place = []; buffered = codes "a" })
    ≡ ok (record { place = codes "no\n"; buffered = codes "a" })
unfolding kod_eprint write_message write_err
prints = refl
