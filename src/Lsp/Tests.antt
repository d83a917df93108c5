-- ===== src/Lsp/Tests.antt =====
-- The language server's state after a few calls, and the theorems there.
use kodlang.Base.{ℕ, List, [], ◌∷◌, none, some, ◌≡◌, ◌≢◌, ◌↔◌, refl, codes}
use kodlang.Lsp.{
  lsp_bytes_eq, lsp_docs_find, replace_text, lsp_docs_set, lsp_docs_get, lsp_docs_remove,
  lsp_set_active_uri, lsp_get_active_uri, lsp_set_publish_pending, lsp_get_publish_pending,
  lsp_cache_lookup, lsp_cache_get_cg, lsp_cache_store, lsp_cache_invalidate, Call, docs_set,
  docs_remove, set_active_uri, set_publish_pending, cache_store, cache_invalidate, call, after,
}
use kodlang.Lsp.Cache.{cached, lsp_cache_lookup_lem}
use kodlang.Lsp.Docs.{Unique, text_of, after-Unique, lsp_docs_get_lem}

-- The latest call first.
abbrev calls : List Call
calls =
    cache_store (codes "a") (codes "new") 4096
    ∷ set_publish_pending 7
    ∷ docs_remove (codes "b")
    ∷ docs_set (codes "a") (codes "new")
    ∷ docs_set (codes "b") (codes "bee")
    ∷ set_active_uri (codes "a")
    ∷ docs_set (codes "a") (codes "old")
    ∷ []

calls_seen :
    (lsp_docs_get (after calls).docs (codes "a") ≡ codes "new")
    × (lsp_docs_get (after calls).docs (codes "b") ≡ [])
    × (lsp_get_active_uri (after calls) ≡ codes "a")
    × (lsp_get_publish_pending (after calls) ≡ 1)
    × (lsp_cache_lookup (after calls) (codes "a") (codes "new") ≡ 1)
    × (lsp_cache_lookup (after (cache_invalidate ∷ calls)) (codes "a") (codes "new") ≡ 0)
unfolding after call lsp_docs_get lsp_docs_find lsp_docs_set lsp_docs_remove replace_text
    lsp_bytes_eq lsp_set_active_uri lsp_get_active_uri lsp_set_publish_pending
    lsp_get_publish_pending lsp_cache_lookup lsp_cache_store lsp_cache_invalidate
calls_seen = (refl, refl, refl, refl, refl, refl)

after-Unique_example : Unique (after calls).docs
after-Unique_example = after-Unique calls

lsp_docs_get_lem_example :
    lsp_docs_get (after calls).docs (codes "a")
    ≡ elim (text_of calls (codes "a")) [ none ↦ [] | some text ↦ text ]
lsp_docs_get_lem_example = lsp_docs_get_lem calls (codes "a")

lsp_cache_lookup_lem_example : (lsp_cache_lookup (after calls) (codes "a") (codes "new") ≡ 1) ↔ (
    (cg : ℕ) × (cached calls ≡ some (record { uri = codes "a"; text = codes "new"; cg = cg }))
    × (cg ≢ 0)
    × (lsp_cache_get_cg (after calls) ≡ cg))
lsp_cache_lookup_lem_example = lsp_cache_lookup_lem calls (codes "a") (codes "new")
