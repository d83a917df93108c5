-- ===== src/Inflate/Decoder.antt =====
-- What zlib promises of the streams that it decodes.
use kodlang.Base.{
  ℕ, ◌<◌, ◌≤◌, ◌≡◌, ◌⊎◌, Bytes, Option, none, some, [], ◌++◌, append-nil, sym, ◌∙◌, inl, inr, codes,
  length,
}
use kodlang.Inflate.{Rc, z_ok, z_stream_end, z_buf_error, z_mem_error, z_other, Zlib}

-- How the decoding of a stream ends: at the end of the data, at the end of an input that is cut
-- short, or by an error of the stream, of the memory or of a reset.
pub data Fate : Type 0 where
  complete : Fate
  cut_short : Fate
  invalid : Bytes → Fate
  no_memory : Fate
  unusable : Fate

-- The text of an error, which zlib may leave out.
abbrev pub error_text : Option Bytes → Bytes
error_text none = codes "invalid data"
error_text (some text) = text

-- A view of zlib's streams: the bytes that are still to come from one, how it ends, and a bound on
-- the calls that this takes.
pub record View (Z : Type 0) : Type 0 where
  pub text : Z → Bytes
  pub fate : Z → Fate
  pub calls : Z → ℕ

module _ {Z : Type 0} (v : View Z) where
  -- After some bytes the stream goes on as another one does.
  abbrev pub GoesOn : Z → Bytes → Z → Type 0
  GoesOn z bytes next =
      (v.text z ≡ bytes ++ v.text next) × (v.fate z ≡ v.fate next) × (v.calls next < v.calls z)

  abbrev pub Ends : Z → Bytes → Fate → Type 0
  Ends z bytes fate = (v.text z ≡ bytes) × (v.fate z ≡ fate)

  abbrev pub Resets : Z → Bytes → Option Z → Type 0
  Resets z bytes none = Ends z bytes unusable
  Resets z bytes (some next) = GoesOn z bytes next

  reset_prefix :
      (r : Option Z) (z : Z) (bytes : Bytes)
      → Resets z bytes r
      → (more : Bytes) × (v.text z ≡ bytes ++ more)
  reset_prefix none z bytes (t, f) = ([], t ∙ sym (append-nil bytes))
  reset_prefix (some next) z bytes (t, f, c) = (v.text next, t)

  module _ (zlib : Zlib Z) (mode : ℕ) where
    -- What a result means. With gzip and input left, the end of a member is followed by the next.
    abbrev pub Means : Z → Bytes → Z → Rc → Type 0
    Means z bytes next z_ok = GoesOn z bytes next
    Means z bytes next z_stream_end =
        ((mode ≡ 0) × (0 < zlib.avail_in next) × Resets z bytes (zlib.reset next))
        ⊎ (((mode ≡ 0 → ⊥) ⊎ (zlib.avail_in next ≡ 0)) × Ends z bytes complete)
    Means z bytes next z_buf_error =
        ((zlib.avail_in next ≡ 0) × Ends z bytes cut_short)
        ⊎ ((0 < zlib.avail_in next) × GoesOn z bytes next)
    Means z bytes next z_mem_error = Ends z bytes no_memory
    Means z bytes next z_other = Ends z bytes (invalid (error_text (zlib.msg next)))

    -- Whatever a result means, the bytes of the call are the next of the stream.
    pub Means-prefix :
        (rc : Rc) (z next : Z) (bytes : Bytes)
        → Means z bytes next rc
        → (more : Bytes) × (v.text z ≡ bytes ++ more)
    Means-prefix z_ok z next bytes (t, f, c) = (v.text next, t)
    Means-prefix z_stream_end z next bytes (inl (m, a, r)) =
        reset_prefix (zlib.reset next) z bytes r
    Means-prefix z_stream_end z next bytes (inr (m, (t, f))) = ([], t ∙ sym (append-nil bytes))
    Means-prefix z_buf_error z next bytes (inl (a, (t, f))) = ([], t ∙ sym (append-nil bytes))
    Means-prefix z_buf_error z next bytes (inr (a, (t, f, c))) = (v.text next, t)
    Means-prefix z_mem_error z next bytes (t, f) = ([], t ∙ sym (append-nil bytes))
    Means-prefix z_other z next bytes (t, f) = ([], t ∙ sym (append-nil bytes))

    -- Whatever room a call has, it writes no more than that, and its result is as documented.
    pub record Decodes : Type 0 where
      pub step :
          (room : ℕ) (z : Z)
          → 0 < room
          → let c = zlib.inflate room z in (length c.bytes ≤ room) × Means z c.bytes c.stream c.rc
