-- ===== src/Base/Outcome.antt =====
-- What a call of the runtime comes to. Undefined behaviour of C (an access outside an object, a
-- signed overflow) is a value of its own, so that a theorem with a result of `ok` excludes it.
use Prim.Native.Nat.{ℕ, ◌+◌, ◌-◌, ◌*◌, ◌^◌, ◌<◌}
use mathlib.Core.Path.{◌≡◌, ap}
use mathlib.Core.List.{List}
use native.Mathlib.Omega.{arith}
use kodlang.Base.Flags.{ltb, if◌then◌else◌}

abbrev pub Bytes : Type 0
Bytes = List ℕ

pub data Run {ℓ} (A : Type ℓ) : Type ℓ where
  ok : A → Run A
  panicked : Bytes → Run A
  undefined : Run A
  out_of_fuel : Run A

-- The next call is made only if the one before it returned.
abbrev pub and_then {ℓ κ} : {R : Type ℓ} {S : Type κ} → (R → Run S) → Run R → Run S
and_then next (ok value) = next value
and_then next (panicked text) = panicked text
and_then next undefined = undefined
and_then next out_of_fuel = out_of_fuel

infixl 5 ◌>>=◌
abbrev pub ◌>>=◌ {ℓ κ} : {R : Type ℓ} {S : Type κ} → Run R → (R → Run S) → Run S
call >>= next = and_then next call

abbrev pub int64_max : ℕ
int64_max = 2 ^ 63 - 1

-- `a + b` and `a * b` on `int64_t` values that are not negative.
unfoldable pub add_int64 : ℕ → ℕ → Run ℕ
add_int64 a b = if ltb (a + b) (2 ^ 63) then ok (a + b) else undefined

unfoldable pub mul_int64 : ℕ → ℕ → Run ℕ
mul_int64 a b = if ltb (a * b) (2 ^ 63) then ok (a * b) else undefined

pub add_int64_lem : (a b : ℕ) → a + b < 2 ^ 63 → add_int64 a b ≡ ok (a + b)
unfolding add_int64
add_int64_lem a b h = ground arith

pub mul_int64_lem : (a b : ℕ) → a * b < 2 ^ 63 → mul_int64 a b ≡ ok (a * b)
unfolding mul_int64
mul_int64_lem a b h = ground arith

-- Calls that returned the same returned equal values.
pub eq_of_ok-eq-ok {ℓ} : {R : Type ℓ} {a b : R} → ok a ≡ ok b → a ≡ b
eq_of_ok-eq-ok {R} {a} e = ap (value a) e
  where
    value : R → Run R → R
    value d (ok v) = v
    value d _ = d
