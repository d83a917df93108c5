-- ===== src/Panic/Output.antt =====
-- The order of the output of a program that panics.
use kodlang.Base.{
  ◌≡◌, refl, ap, ◌∙◌, Bytes, [], ◌∷◌, ◌++◌, ok, codes, length, length-append, take-append,
  append_assoc, le→leb, arith,
}
use kodlang.Str.Repr.{str_of}
use kodlang.Testing.{Console, write_err, fflush, newline}
use kodlang.Panic.{write_message, kod_panic}

write_message_lem : (xs : Bytes) (c : Console) → write_message (str_of xs) c ≡ ok (write_err xs c)
unfolding write_message
write_message_lem xs c =
    rw (le→leb (length xs) (length (xs ++ 0 ∷ [])) (omega (arith, length-append xs (0 ∷ []))))
      (ap (λ b. ok (write_err b c)) (take-append (length xs) xs (0 ∷ []) refl))

regroup :
    (a b c d e f : Bytes) → ((((a ++ b) ++ c) ++ d) ++ e) ++ f ≡ a ++ (b ++ (c ++ (d ++ (e ++ f))))
regroup a b c d e f =
    append_assoc (((a ++ b) ++ c) ++ d) e f
    ∙ append_assoc ((a ++ b) ++ c) d (e ++ f)
    ∙ append_assoc (a ++ b) c (d ++ (e ++ f))
    ∙ append_assoc a b (c ++ (d ++ (e ++ f)))

-- All that was printed comes first, then the line of the panic and the backtrace.
kod_panic_lem :
    (backtrace xs : Bytes) (c : Console)
    → kod_panic backtrace (str_of xs) c
      ≡ ok (record {
        status = 1;
        console = record {
          place = c.place ++ (c.buffered ++ (codes "panic: " ++ (xs ++ (newline ++ backtrace))));
          buffered = [];
        };
      })
unfolding kod_panic write_err fflush
kod_panic_lem backtrace xs c = rw write_message_lem (
    ap (λ p. ok (record { status = 1; console = record { place = p; buffered = [] } }))
      (regroup c.place c.buffered (codes "panic: ") xs newline backtrace))
