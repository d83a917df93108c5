-- ===== src/Fd/Kinds.antt =====
-- The kind of an error number: `kod_errno_kind`, and `IoKind`, `kind_at` and `kind_of_errno` of
-- stdlib/stream.kod.
use kodlang.Base.{ℕ, zero, suc, ◌≡◌, ◌||◌, ◌==◌, if◌then◌else◌, arith}
use kodlang.Base.Int.{ℤ, pos, negsuc}

-- The error numbers of the platform.
pub record Errnos : Type 0 where
  pub enoent : ℕ
  pub eacces : ℕ
  pub eperm : ℕ
  pub eexist : ℕ
  pub eaddrinuse : ℕ
  pub einval : ℕ
  pub ebadf : ℕ
  pub eisdir : ℕ
  pub enotdir : ℕ
  pub eagain : ℕ
  pub etimedout : ℕ
  pub econnrefused : ℕ
  pub econnreset : ℕ
  pub epipe : ℕ

pub data IoKind : Type 0 where
  not_found : IoKind
  permission_denied : IoKind
  already_exists : IoKind
  invalid_input : IoKind
  would_block : IoKind
  timed_out : IoKind
  connection_refused : IoKind
  connection_reset : IoKind
  broken_pipe : IoKind
  unexpected_eof : IoKind
  other : IoKind
  host_not_found : IoKind
  tls : IoKind
  protocol : IoKind

-- The position of a kind in the declaration.
abbrev pub position : IoKind → ℕ
position not_found = 0
position permission_denied = 1
position already_exists = 2
position invalid_input = 3
position would_block = 4
position timed_out = 5
position connection_refused = 6
position connection_reset = 7
position broken_pipe = 8
position unexpected_eof = 9
position other = 10
position host_not_found = 11
position tls = 12
position protocol = 13

unfoldable pub kind_at : ℕ → IoKind
kind_at i =
    if i == 0
    then not_found
    else if i == 1
    then permission_denied
    else if i == 2
    then already_exists
    else if i == 3
    then invalid_input
    else if i == 4
    then timed_out
    else if i == 5
    then timed_out
    else if i == 6
    then connection_refused
    else if i == 7
    then connection_reset
    else if i == 8
    then broken_pipe
    else other

module _ (e : Errnos) where
  unfoldable pub kod_errno_kind : ℕ → ℕ
  kod_errno_kind err =
      if err == e.enoent
      then 0
      else if err == e.eacces || err == e.eperm
      then 1
      else if err == e.eexist || err == e.eaddrinuse
      then 2
      else if err == e.einval || err == e.ebadf || err == e.eisdir || err == e.enotdir
      then 3
      else if err == e.eagain || err == e.etimedout
      then 5
      else if err == e.econnrefused
      then 6
      else if err == e.econnreset
      then 7
      else if err == e.epipe
      then 8
      else 10

  unfoldable pub kind_of_errno : ℤ → IoKind
  kind_of_errno (pos zero) = other
  kind_of_errno (pos (suc n)) = kind_at (kod_errno_kind (suc n))
  kind_of_errno (negsuc n) = other

  -- For every positive error number, whatever the platform's numbers are, kod_errno_kind gives the
  -- position in IoKind of the kind that kind_of_errno gives.
  pub position-kind_of_errno :
      (err : ℕ) → position (kind_of_errno (pos (suc err))) ≡ kod_errno_kind (suc err)
  unfolding kind_of_errno kod_errno_kind kind_at
  position-kind_of_errno err = ground arith
