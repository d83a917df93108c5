-- ===== src/Fd/Retry.antt =====
-- The retry loop on its own.
use kodlang.Base.{ℕ, zero, suc, ◌<◌, ◌≡◌, ◌≢◌, ap, ◌∙◌, ok, arith}
use kodlang.Fd.{Answer, returned, failed, retry, unless_interrupted}

-- The answer is a result, or an error that does not ask for another call.
abbrev pub Final {ℓ} : {A : Type ℓ} → ℕ → Answer A → Type 0
Final eintr (returned v) = Unit
Final eintr (failed e) = e ≢ eintr

module _ {ℓ} {K : Type 0} {A : Type ℓ} where
  -- From a state, `n` calls are interrupted and the next one gives a final answer and a new state.
  pub data Settles (eintr : ℕ) (sys : K → Answer A × K) : ℕ → K → Answer A → K → Type ℓ where
    answered :
        {k : K} {r : Answer A} {k' : K}
        → sys k ≡ (r, k')
        → Final eintr r
        → Settles eintr sys 0 k r k'
    interrupted :
        {n : ℕ} {k between : K} {r : Answer A} {k' : K}
        → sys k ≡ (failed eintr, between)
        → Settles eintr sys n between r k'
        → Settles eintr sys (suc n) k r k'

  module _ (eintr : ℕ) (sys : K → Answer A × K) where
    retry-suc :
        {k : K} {out : Answer A × K} (fuel : ℕ)
        → sys k ≡ out
        → retry eintr (suc fuel) sys k ≡ unless_interrupted eintr (retry eintr fuel sys out.1) out
    unfolding retry
    retry-suc fuel e = ap (λ o. unless_interrupted eintr (retry eintr fuel sys o.1) o) e

    pub retry_lem :
        (fuel : ℕ) {n : ℕ} {k : K} {r : Answer A} {k' : K}
        → Settles eintr sys n k r k'
        → n < fuel
        → retry eintr fuel sys k ≡ ok (r, k')
    unfolding unless_interrupted
    retry_lem zero s h = absurd (omega arith)
    retry_lem (suc fuel) (answered {r = returned v} e f) h = retry-suc fuel e
    retry_lem (suc fuel) (answered {r = failed x} e f) h = retry-suc fuel e ∙ ground (arith, f)
    retry_lem (suc fuel) (interrupted e s) h =
        retry-suc fuel e ∙ ground (arith, retry_lem fuel s (omega arith))
