-- ===== src/Lsp/Cache.antt =====
-- The cached compile of stdlib/runtime.c.
use kodlang.Base.{
  none-ne-some, ℕ, Bytes, List, [], ◌∷◌, Option, none, some, ◌≡◌, ◌≢◌, refl, ◌↔◌, arith,
}
use kodlang.Lsp.{
  LspState, lsp_cache_lookup, lsp_cache_get_cg, lsp_cache_store, lsp_cache_invalidate,
  lsp_set_active_uri, lsp_set_publish_pending, Call, docs_set, docs_remove, set_active_uri,
  set_publish_pending, cache_store, cache_invalidate, call, after,
}
use kodlang.Lsp.Docs.{lsp_bytes_eq_iff}

-- What the calls, the latest first, leave in the cache: the last compile stored since the last
-- invalidation.
pub record Compile : Type 0 where
  pub uri : Bytes
  pub text : Bytes
  pub cg : ℕ

unfoldable pub cached : List Call → Option Compile
cached [] = none
cached (cache_store uri text cg ∷ earlier) = some (record { uri = uri; text = text; cg = cg })
cached (cache_invalidate ∷ earlier) = none
cached (docs_set uri text ∷ earlier) = cached earlier
cached (docs_remove uri ∷ earlier) = cached earlier
cached (set_active_uri uri ∷ earlier) = cached earlier
cached (set_publish_pending v ∷ earlier) = cached earlier

-- The cache holds what the calls left there.
abbrev Shows : ℕ → Bytes → Bytes → Option Compile → Type 0
Shows cg uri text none = cg ≡ 0
Shows cg uri text (some c) = (cg ≡ c.cg) × (uri ≡ c.uri) × (text ≡ c.text)

shows :
    (cs : List Call)
    → Shows (after cs).cached_cg (after cs).cached_uri (after cs).cached_text (cached cs)
unfolding after call cached lsp_set_active_uri lsp_set_publish_pending lsp_cache_store
    lsp_cache_invalidate
shows [] = refl
shows (cache_store uri text cg ∷ earlier) = (refl, refl, refl)
shows (cache_invalidate ∷ earlier) = refl
shows (docs_set uri text ∷ earlier) = shows earlier
shows (docs_remove uri ∷ earlier) = shows earlier
shows (set_active_uri uri ∷ earlier) = shows earlier
shows (set_publish_pending v ∷ earlier) = shows earlier

module _ (s : LspState) (uri text : Bytes) where
  -- The answer from what the cache holds.
  forth :
      (o : Option Compile)
      → Shows s.cached_cg s.cached_uri s.cached_text o
      → lsp_cache_lookup s uri text ≡ 1
      → (o ≡ some (record { uri = uri; text = text; cg = s.cached_cg })) × (s.cached_cg ≢ 0)
  unfolding lsp_cache_lookup
  forth none h e = ground arith
  forth (some c) h e =
      ground (arith, lsp_bytes_eq_iff s.cached_uri uri, lsp_bytes_eq_iff s.cached_text text)

  back :
      (o : Option Compile) (cg : ℕ)
      → Shows s.cached_cg s.cached_uri s.cached_text o
      → o ≡ some (record { uri = uri; text = text; cg = cg })
      → cg ≢ 0
      → lsp_cache_lookup s uri text ≡ 1
  unfolding lsp_cache_lookup
  back none cg h e ne = absurd (none-ne-some e)
  back (some c) cg h e ne =
      ground (arith, lsp_bytes_eq_iff s.cached_uri uri, lsp_bytes_eq_iff s.cached_text text)

-- lsp_cache_lookup answers 1 exactly when a compile with a pointer was stored for the same URI and
-- the same text, and nothing was stored or invalidated since; lsp_cache_get_cg then returns its
-- pointer.
pub lsp_cache_lookup_lem :
    (cs : List Call) (uri text : Bytes)
    → (lsp_cache_lookup (after cs) uri text ≡ 1) ↔ (
        (cg : ℕ) × (cached cs ≡ some (record { uri = uri; text = text; cg = cg }))
        × (cg ≢ 0)
        × (lsp_cache_get_cg (after cs) ≡ cg))
unfolding lsp_cache_get_cg
lsp_cache_lookup_lem cs uri text = (
  (λ e.
      let (o, ne) = forth (after cs) uri text (cached cs) (shows cs) e in
      ((after cs).cached_cg, o, ne, refl)),
  (λ p. back (after cs) uri text (cached cs) p.0 (shows cs) p.1 p.2),
)
