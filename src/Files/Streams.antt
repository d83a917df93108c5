-- ===== src/Files/Streams.antt =====
-- What the C library promises of its streams.
use kodlang.Base.{ℕ, ◌<◌, ◌≤◌, ◌≡◌, ◌⊎◌, Bytes, [], ◌++◌, Bool, length}
use kodlang.Files.{Stdio}

-- A view of a stream: the bytes that are still to come, and whether an error comes behind them.
pub record View (Z : Type 0) : Type 0 where
  pub text : Z → Bytes
  pub broken : Z → Bool

module _ {Z : Type 0} (v : View Z) (stdio : Stdio Z) where
  -- A read of `n` bytes gives `n`, or all that there are, and then `ferror` tells if there was an error.
  abbrev pub Full : ℕ → Z → Bytes × Z → Type 0
  Full n z got =
      ((length got.0 ≡ n) × (v.text z ≡ got.0 ++ v.text got.1) × (v.broken z ≡ v.broken got.1))
      ⊎ ((length got.0 < n) × (v.text z ≡ got.0) × (stdio.ferror got.1 ≡ v.broken z))

  pub record ReadsFull : Type 0 where
    pub step : (n : ℕ) (z : Z) → 0 < n → Full n z (stdio.fread n z)

  -- A read gives some bytes, `n` at most, or none at the end.
  abbrev pub Piece : ℕ → Z → Bytes × Z → Type 0
  Piece n z got =
      (length got.0 ≤ n) × (v.text z ≡ got.0 ++ v.text got.1) × ((length got.0 ≡ 0) → v.text z ≡ [])

  pub record ReadsPieces : Type 0 where
    pub step : (n : ℕ) (z : Z) → 0 < n → Piece n z (stdio.fread n z)
