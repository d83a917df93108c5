-- ===== src/StrBuilder/Cost.antt =====
-- What the doubling of `kod_sb_reserve` costs: the bytes it copies and the buffers it leaves behind.
use kodlang.Base.{
  subst, ℕ, ◌+◌, ◌*◌, ◌<◌, ◌≤◌, ◌≡◌, ◌⊎◌, inl, refl, Run, ok, ◌>>=◌, List, [], ◌∷◌, arith,
}
use kodlang.StrBuilder.{KodStrBuilder, kod_sb_new, Moved, Op, step}
use kodlang.StrBuilder.Valid.{CapStep, Spends, IsValid, kod_sb_new-IsValid}
use kodlang.StrBuilder.Refine.{StepOutcome, done, stopped, step_lem, size_of, moves}

-- Bytes appended so far, bytes of the buffers given up, and bytes copied out of them.
pub record Usage : Type 0 where
  pub appended : ℕ
  pub abandoned : ℕ
  pub copied : ℕ

unfoldable pub account : Op → Moved → Usage → Usage
account op m u = record {
  appended = u.appended + size_of op;
  abandoned = u.abandoned + m.abandoned;
  copied = u.copied + m.copied;
}

pub record Metered : Type 0 where
  pub builder : KodStrBuilder
  pub usage : Usage

module _ (junk : ℕ → ℕ) where
  -- The calls in order, with the account kept beside.
  unfoldable pub metered : KodStrBuilder → Usage → List Op → Run Metered
  metered sb u [] = ok (record { builder = sb; usage = u })
  metered sb u (op ∷ ops) = do
    next ← step junk sb op
    m ← moves junk sb op
    metered next (account op m u) ops

record Bound (sb : KodStrBuilder) (u : Usage) : Type 0 where
  valid : IsValid sb
  held : sb.len ≤ u.appended
  behind : u.abandoned + 32 ≤ sb.cap
  tight : (sb.cap ≡ 32) ⊎ (sb.cap < 2 * u.appended)
  copies : u.copied ≤ u.abandoned

account-Bound :
    (sb sb' : KodStrBuilder) (op : Op) (m : Moved) (u : Usage)
    → Bound sb u
    → IsValid sb'
    → sb'.len ≤ sb.len + size_of op
    → CapStep sb (sb.len + size_of op) sb'
    → Spends sb sb'.cap m
    → Bound sb' (account op m u)
unfolding account
account-Bound sb sb' op m u b v l c s = ground arith

abbrev pub unused : Usage
unused = record { appended = 0; abandoned = 0; copied = 0 }

Bound-ok :
    {sb : KodStrBuilder} {u : Usage} {m : Metered}
    → Bound sb u
    → ok (record { builder = sb; usage = u }) ≡ ok m
    → Bound m.builder m.usage
Bound-ok {sb} {u} b e = subst (holds sb u) e b
  where
    holds : KodStrBuilder → Usage → Run Metered → Type 0
    holds sb u (ok m) = Bound m.builder m.usage
    holds sb u _ = Bound sb u

module _ (junk : ℕ → ℕ) where
  new-Bound : Bound (kod_sb_new junk) unused
  unfolding kod_sb_new
  new-Bound = record {
    valid = kod_sb_new-IsValid junk;
    held = omega arith;
    behind = omega arith;
    tight = inl refl;
    copies = omega arith;
  }

  metered-Bound :
      (ops : List Op) (sb : KodStrBuilder) (u : Usage) {m : Metered}
      → Bound sb u
      → metered junk sb u ops ≡ ok m
      → Bound m.builder m.usage
  unfolding metered
  metered-Bound [] sb u b e = Bound-ok b e
  metered-Bound (op ∷ ops) sb u {m} b e =
      after (step_lem junk sb op b.valid) (λ s w. metered-Bound ops s w)
    where
      after :
          StepOutcome junk sb op
          → ((s : KodStrBuilder) (w : Usage)
              → Bound s w
              → metered junk s w ops ≡ ok m
              → Bound m.builder m.usage)
          → Bound m.builder m.usage
      after (done sb' m' f v' _ l c g s) ih =
          ih sb' (account op m' u) (account-Bound sb sb' op m' u b v' l c s) (rw (f, g) at e)
      after (stopped f _) ih = absurd (cc)

  -- Calls on a new builder that all return and append n bytes in all leave under 2 * n bytes of
  -- abandoned buffers behind (none, if the first buffer was enough), and copy no more bytes than
  -- that.
  pub cost_bound :
      (ops : List Op) {m : Metered}
      → metered junk (kod_sb_new junk) unused ops ≡ ok m
      → ((m.usage.abandoned ≡ 0) ⊎ (m.usage.abandoned < 2 * m.usage.appended))
        × (m.usage.copied ≤ m.usage.abandoned)
  cost_bound ops e =
      let b = metered-Bound ops _ _ new-Bound e in (ground (arith, b.tight, b.behind), b.copies)
