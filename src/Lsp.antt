-- ===== src/Lsp.antt =====
-- The state of the language server that stdlib/runtime.c keeps outside the arena: the open documents,
-- the active URI, the flag of a pending publish and the cached compile. Each text is a copy that
-- only its owner reaches, so it is a value here.
pub mod Docs
pub mod Cache
mod Tests
use kodlang.Base.{
  ℕ, zero, suc, Bytes, List, [], ◌∷◌, Option, none, some, Bool, true, false, not, ◌&&◌, length,
  ◌==◌, if◌then◌else◌,
}

pub record LspDoc : Type 0 where
  pub uri : Bytes
  pub text : Bytes

-- `memcmp(a, b, n) == 0`
unfoldable pub same_bytes : Bytes → Bytes → ℕ → Bool
same_bytes a b zero = true
same_bytes (x ∷ a) (y ∷ b) (suc n) = x == y && same_bytes a b n
same_bytes _ _ (suc n) = false

unfoldable pub lsp_bytes_eq : Bytes → Bytes → Bool
unfolding same_bytes
lsp_bytes_eq a b = if not (length a == length b) then false else same_bytes a b (length a)

unfoldable pub lsp_docs_find : List LspDoc → Bytes → Option LspDoc
lsp_docs_find [] uri = none
lsp_docs_find (d ∷ ds) uri = if lsp_bytes_eq d.uri uri then some d else lsp_docs_find ds uri

-- The write through the pointer that `lsp_docs_find` returns: the first document of that URI.
unfoldable pub replace_text : List LspDoc → Bytes → Bytes → List LspDoc
replace_text [] uri text = []
replace_text (d ∷ ds) uri text =
    if lsp_bytes_eq d.uri uri then record d { text = text } ∷ ds else d ∷ replace_text ds uri text

unfoldable pub lsp_docs_set : List LspDoc → Bytes → Bytes → List LspDoc
lsp_docs_set ds uri text = elim (lsp_docs_find ds uri) [
  | some d ↦ replace_text ds uri text
  | none ↦ record { uri = uri; text = text } ∷ ds
]

-- The bytes of the string returned; empty if the URI is not tracked.
unfoldable pub lsp_docs_get : List LspDoc → Bytes → Bytes
lsp_docs_get ds uri = elim (lsp_docs_find ds uri) [ none ↦ [] | some d ↦ d.text ]

unfoldable pub lsp_docs_remove : List LspDoc → Bytes → List LspDoc
lsp_docs_remove [] uri = []
lsp_docs_remove (d ∷ ds) uri = if lsp_bytes_eq d.uri uri then ds else d ∷ lsp_docs_remove ds uri

-- The other globals. A pointer is an address, with 0 for NULL.
pub record LspState : Type 0 where
  pub docs : List LspDoc
  pub active_uri : Bytes
  pub publish_pending : ℕ
  pub cached_cg : ℕ
  pub cached_uri : Bytes
  pub cached_text : Bytes

abbrev pub initial : LspState
initial = record {
  docs = [];
  active_uri = [];
  publish_pending = 0;
  cached_cg = 0;
  cached_uri = [];
  cached_text = [];
}

unfoldable pub lsp_set_active_uri : LspState → Bytes → LspState
lsp_set_active_uri s uri = record s { active_uri = uri }

unfoldable pub lsp_get_active_uri : LspState → Bytes
lsp_get_active_uri s = s.active_uri

unfoldable pub lsp_get_publish_pending : LspState → ℕ
lsp_get_publish_pending s = s.publish_pending

unfoldable pub lsp_set_publish_pending : LspState → ℕ → LspState
lsp_set_publish_pending s v = record s { publish_pending = if not (v == 0) then 1 else 0 }

unfoldable pub lsp_cache_lookup : LspState → Bytes → Bytes → ℕ
lsp_cache_lookup s uri text =
    if s.cached_cg == 0
    then 0
    else if not (lsp_bytes_eq s.cached_uri uri)
    then 0
    else if not (lsp_bytes_eq s.cached_text text)
    then 0
    else 1

unfoldable pub lsp_cache_get_cg : LspState → ℕ
lsp_cache_get_cg s = s.cached_cg

unfoldable pub lsp_cache_store : LspState → Bytes → Bytes → ℕ → LspState
lsp_cache_store s uri text cg = record s { cached_uri = uri; cached_text = text; cached_cg = cg }

unfoldable pub lsp_cache_invalidate : LspState → LspState
lsp_cache_invalidate s = record s { cached_cg = 0 }

-- The calls that change the state.
pub data Call : Type 0 where
  docs_set : Bytes → Bytes → Call
  docs_remove : Bytes → Call
  set_active_uri : Bytes → Call
  set_publish_pending : ℕ → Call
  cache_store : Bytes → Bytes → ℕ → Call
  cache_invalidate : Call

unfoldable pub call : LspState → Call → LspState
call s (docs_set uri text) = record s { docs = lsp_docs_set s.docs uri text }
call s (docs_remove uri) = record s { docs = lsp_docs_remove s.docs uri }
call s (set_active_uri uri) = lsp_set_active_uri s uri
call s (set_publish_pending v) = lsp_set_publish_pending s v
call s (cache_store uri text cg) = lsp_cache_store s uri text cg
call s cache_invalidate = lsp_cache_invalidate s

-- The state after some calls, the latest call first in the list.
unfoldable pub after : List Call → LspState
after [] = initial
after (c ∷ earlier) = call (after earlier) c
