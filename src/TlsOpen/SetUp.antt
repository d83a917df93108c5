-- ===== src/TlsOpen/SetUp.antt =====
-- The calls of `kod_tls_open` that set a session up.
use kodlang.Base.{ℕ, ◌≡◌, refl, List, ◌∷◌, Option, none, some, true}
use kodlang.TlsIo.{
  OsStatus, no_err, server_auth_completed, closed_graceful, closed_no_notify, closed_abort,
  would_block, sec_io, other,
}
use kodlang.Tls.{is_no_err}
use kodlang.TlsOpen.{first_error, Opening, set_up}

-- The calls that set the session up succeed: with anchors also the one that makes the handshake stop
-- for the server's certificates.
abbrev pub IsSetUp : Opening → Option ℕ → Type 0
IsSetUp o none =
    (o.io_funcs ≡ no_err)
    × (o.connection ≡ no_err)
    × (o.protocol_min ≡ no_err)
    × (o.peer_name ≡ no_err)
IsSetUp o (some list) =
    (o.io_funcs ≡ no_err)
    × (o.connection ≡ no_err)
    × (o.protocol_min ≡ no_err)
    × (o.peer_name ≡ no_err)
    × (o.break_on_auth ≡ no_err)

first_error_lem :
    (st : OsStatus) (rest : List OsStatus)
    → is_no_err (first_error (st ∷ rest)) ≡ true
    → (st ≡ no_err) × (is_no_err (first_error rest) ≡ true)
unfolding first_error is_no_err
first_error_lem no_err rest h = (refl, h)
first_error_lem server_auth_completed rest h = absurd (cc)
first_error_lem closed_graceful rest h = absurd (cc)
first_error_lem closed_no_notify rest h = absurd (cc)
first_error_lem closed_abort rest h = absurd (cc)
first_error_lem would_block rest h = absurd (cc)
first_error_lem sec_io rest h = absurd (cc)
first_error_lem (other n) rest h = absurd (cc)

pub set_up-IsSetUp :
    (o : Opening) (list : Option ℕ) → is_no_err (set_up o list) ≡ true → IsSetUp o list
unfolding set_up
set_up-IsSetUp o none h =
    let (a, h₁) = first_error_lem _ _ h in
    let (b, h₂) = first_error_lem _ _ h₁ in
    let (c, h₃) = first_error_lem _ _ h₂ in let (d, h₄) = first_error_lem _ _ h₃ in (a, b, c, d)
set_up-IsSetUp o (some list) h =
    let (a, h₁) = first_error_lem _ _ h in
    let (b, h₂) = first_error_lem _ _ h₁ in
    let (c, h₃) = first_error_lem _ _ h₂ in
    let (d, h₄) = first_error_lem _ _ h₃ in let (e, h₅) = first_error_lem _ _ h₄ in (a, b, c, d, e)

pub IsSetUp-set_up :
    (o : Opening) (list : Option ℕ) → IsSetUp o list → is_no_err (set_up o list) ≡ true
unfolding set_up first_error is_no_err
IsSetUp-set_up o none (a, b, c, d) = rw (a, b, c, d) refl
IsSetUp-set_up o (some list) (a, b, c, d, e) = rw (a, b, c, d, e) refl
