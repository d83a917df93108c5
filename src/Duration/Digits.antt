-- ===== src/Duration/Digits.antt =====
-- How many digits a duration is shown with.
use kodlang.Base.{ℕ, ◌*◌, ◌^◌, ◌<◌, ◌≤◌, arith}
use kodlang.Base.Int.{pos}
use kodlang.Duration.{scale_of, decimals_of}

-- From a microsecond up to 1000 seconds: the value, counted in the last digit that is shown of it,
-- has three digits before it is rounded.
three_digits :
    (n : ℕ)
    → 1000 ≤ n
    → n < 1000000000000
    → let unit = (scale_of (pos n)).ns in
      let shown = n * 10 ^ decimals_of (pos n) unit in (100 * unit ≤ shown) × (shown < 1000 * unit)
unfolding scale_of decimals_of
three_digits n h k = ground (arith, h, k)
