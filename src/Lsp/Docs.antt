-- ===== src/Lsp/Docs.antt =====
-- The documents of stdlib/runtime.c are a map from URIs to texts.
use mathlib.Core.Logic.{ite, if_pos, if_neg}
use native.Mathlib.Decide.{ℕ_discrete}
use kodlang.Base.{
  Bytes, List, [], ◌∷◌, Option, none, some, true, false, length, if◌then◌else◌, ◌≡◌, ◌≢◌, refl, ap,
  ◌∙◌, ◌↔◌, inl, inr, Bool-cases, arith,
}
use kodlang.Lsp.{
  LspDoc, same_bytes, lsp_bytes_eq, lsp_docs_find, replace_text, lsp_docs_set, lsp_docs_get,
  lsp_docs_remove, Call, docs_set, docs_remove, set_active_uri, set_publish_pending, cache_store,
  cache_invalidate, call, after, lsp_set_active_uri, lsp_set_publish_pending, lsp_cache_store,
  lsp_cache_invalidate,
}

pub bytes_discrete : Discrete Bytes
bytes_discrete = hlevel ℕ_discrete

same_bytes_eq : (a b : Bytes) → length a ≡ length b → same_bytes a b (length a) ≡ true → a ≡ b
unfolding same_bytes
same_bytes_eq [] [] h e = refl
same_bytes_eq [] (y ∷ b) h e = absurd (omega arith)
same_bytes_eq (x ∷ a) [] h e = absurd (omega arith)
same_bytes_eq (x ∷ a) (y ∷ b) h e = ground (arith, same_bytes_eq a b)

same_bytes_refl : (a : Bytes) → same_bytes a a (length a) ≡ true
unfolding same_bytes
same_bytes_refl [] = refl
same_bytes_refl (x ∷ a) = ground (arith, same_bytes_refl a)

-- `lsp_bytes_eq` tells equal byte strings.
pub lsp_bytes_eq_iff : (a b : Bytes) → (lsp_bytes_eq a b ≡ true) ↔ (a ≡ b)
unfolding lsp_bytes_eq
lsp_bytes_eq_iff a b =
    ((λ e. ground (arith, same_bytes_eq a b)), (λ e. rw (← e) (ground (arith, same_bytes_refl a))))

-- The text of the first document of a URI.
unfoldable pub view : List LspDoc → Bytes → Option Bytes
view [] u = none
view (d ∷ ds) u = if lsp_bytes_eq d.uri u then some d.text else view ds u

abbrev text_of_doc : Option LspDoc → Option Bytes
text_of_doc none = none
text_of_doc (some d) = some d.text

view-find : (ds : List LspDoc) (u : Bytes) → view ds u ≡ text_of_doc (lsp_docs_find ds u)
unfolding view lsp_docs_find
view-find [] u = refl
view-find (d ∷ ds) u = ground (arith, view-find ds u)

-- Every URI has one document at most.
abbrev pub Unique : List LspDoc → Type 0
Unique [] = Unit
Unique (d ∷ ds) = (view ds d.uri ≡ none) × Unique ds

view-replace :
    (ds : List LspDoc) (uri text u : Bytes)
    → view ds uri ≢ none
    → view (replace_text ds uri text) u ≡ (if lsp_bytes_eq uri u then some text else view ds u)
unfolding view replace_text
view-replace [] uri text u h = absurd (h refl)
view-replace (d ∷ ds) uri text u h = ground (
  arith,
  view-replace ds uri text u,
  lsp_bytes_eq_iff d.uri uri,
  lsp_bytes_eq_iff d.uri u,
  lsp_bytes_eq_iff uri u,
)

Unique-replace :
    (ds : List LspDoc) (uri text : Bytes)
    → view ds uri ≢ none
    → Unique ds
    → Unique (replace_text ds uri text)
unfolding view replace_text
Unique-replace [] uri text h q = tt
Unique-replace (d ∷ ds) uri text h q = ground (
  arith,
  Unique-replace ds uri text,
  view-replace ds uri text d.uri,
  lsp_bytes_eq_iff d.uri uri,
  lsp_bytes_eq_iff uri d.uri,
)

view-remove :
    (ds : List LspDoc) (uri u : Bytes)
    → Unique ds
    → view (lsp_docs_remove ds uri) u ≡ (if lsp_bytes_eq uri u then none else view ds u)
unfolding view lsp_docs_remove
view-remove [] uri u q = ground arith
view-remove (d ∷ ds) uri u q = ground (
  arith,
  view-remove ds uri u,
  lsp_bytes_eq_iff d.uri uri,
  lsp_bytes_eq_iff d.uri u,
  lsp_bytes_eq_iff uri u,
  ap (view ds) {x = d.uri} {y = u},
)

Unique-remove : (ds : List LspDoc) (uri : Bytes) → Unique ds → Unique (lsp_docs_remove ds uri)
unfolding view lsp_docs_remove
Unique-remove [] uri q = tt
Unique-remove (d ∷ ds) uri q =
    ground (arith, Unique-remove ds uri, view-remove ds uri d.uri, lsp_bytes_eq_iff uri d.uri)

module _ (ds : List LspDoc) (uri text : Bytes) where
  view-set :
      (u : Bytes)
      → view (lsp_docs_set ds uri text) u ≡ (if lsp_bytes_eq uri u then some text else view ds u)
  unfolding lsp_docs_set view
  view-set u = ground (arith, view-find ds uri, view-replace ds uri text u)

  Unique-set : Unique ds → Unique (lsp_docs_set ds uri text)
  unfolding lsp_docs_set
  Unique-set q = ground (arith, view-find ds uri, Unique-replace ds uri text)

-- What the calls, the latest first, say of a URI: its text since the last call that names it.
unfoldable pub text_of : List Call → Bytes → Option Bytes
text_of [] u = none
text_of (docs_set uri text ∷ earlier) u = ite (bytes_discrete uri u) (some text) (text_of earlier u)
text_of (docs_remove uri ∷ earlier) u = ite (bytes_discrete uri u) none (text_of earlier u)
text_of (set_active_uri uri ∷ earlier) u = text_of earlier u
text_of (set_publish_pending v ∷ earlier) u = text_of earlier u
text_of (cache_store uri text cg ∷ earlier) u = text_of earlier u
text_of (cache_invalidate ∷ earlier) u = text_of earlier u

-- Both tests of two URIs choose alike.
choose :
    (a b : Bytes) (x y : Option Bytes)
    → (if lsp_bytes_eq a b then x else y) ≡ ite (bytes_discrete a b) x y
choose a b x y = elim (bytes_discrete a b) [
  | yes e ↦ rw (if_pos (bytes_discrete a b) e, (lsp_bytes_eq_iff a b).1 e)
  | no ne ↦ rw (if_neg (bytes_discrete a b) ne, differs ne)
]
  where
    differs : a ≢ b → lsp_bytes_eq a b ≡ false
    differs ne = elim (Bool-cases (lsp_bytes_eq a b)) [
      | inl t ↦ absurd (ne ((lsp_bytes_eq_iff a b).0 t))
      | inr f ↦ f
    ]

-- After any calls every URI has one document at most.
pub after-Unique : (cs : List Call) → Unique (after cs).docs
unfolding after call lsp_set_active_uri lsp_set_publish_pending lsp_cache_store lsp_cache_invalidate
after-Unique [] = tt
after-Unique (docs_set uri text ∷ earlier) = Unique-set _ uri text (after-Unique earlier)
after-Unique (docs_remove uri ∷ earlier) = Unique-remove _ uri (after-Unique earlier)
after-Unique (set_active_uri uri ∷ earlier) = after-Unique earlier
after-Unique (set_publish_pending v ∷ earlier) = after-Unique earlier
after-Unique (cache_store uri text cg ∷ earlier) = after-Unique earlier
after-Unique (cache_invalidate ∷ earlier) = after-Unique earlier

view-after : (cs : List Call) (u : Bytes) → view (after cs).docs u ≡ text_of cs u
unfolding after call text_of lsp_set_active_uri lsp_set_publish_pending lsp_cache_store
    lsp_cache_invalidate
view-after [] u = unfold view in refl
view-after (docs_set uri text ∷ earlier) u =
    view-set _ uri text u
    ∙ choose uri u (some text) (view (after earlier).docs u)
    ∙ ap (ite (bytes_discrete uri u) (some text)) (view-after earlier u)
view-after (docs_remove uri ∷ earlier) u =
    view-remove _ uri u (after-Unique earlier)
    ∙ choose uri u none (view (after earlier).docs u)
    ∙ ap (ite (bytes_discrete uri u) none) (view-after earlier u)
view-after (set_active_uri uri ∷ earlier) u = view-after earlier u
view-after (set_publish_pending v ∷ earlier) u = view-after earlier u
view-after (cache_store uri text cg ∷ earlier) u = view-after earlier u
view-after (cache_invalidate ∷ earlier) u = view-after earlier u

-- After any calls lsp_docs_get returns the text of the last lsp_docs_set of that URI, and the empty
-- text if there was none or lsp_docs_remove took it since.
pub lsp_docs_get_lem :
    (cs : List Call) (u : Bytes)
    → lsp_docs_get (after cs).docs u ≡ elim (text_of cs u) [ none ↦ [] | some text ↦ text ]
unfolding lsp_docs_get
lsp_docs_get_lem cs u = ground (arith, view-after cs u, view-find (after cs).docs u)
