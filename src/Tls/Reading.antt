-- ===== src/Tls/Reading.antt =====
-- What `kod_tls_read` returns where there is data, against what Secure Transport has decrypted.
use kodlang.Base.{
  ℕ, zero, suc, ◌+◌, ◌-◌, ◌^◌, ◌<◌, ◌≤◌, min, ◌≡◌, refl, ap, ap₂, sym, ◌∙◌, Bytes, ◌++◌, Bool, true,
  false, ◌||◌, ok, fresh, length-fresh, memcpy, memcpy-fresh, memcpy-append, take, drop, length,
  length-append, length-take, length-drop, take-append_rest, drop-append_rest, append_assoc, ltb,
  lt→ltb, if◌then◌else◌, arith,
}
use kodlang.Base.Int.{pos}
use kodlang.Fd.Calls.{capped_lem}
use kodlang.Str.{KodStr, kod_str_from_bytes}
use kodlang.Str.Repr.{str_of}
use kodlang.Str.Ops.{kod_str_from_bytes_lem}
use kodlang.TlsIo.{
  OsStatus, no_err, closed_graceful, closed_no_notify, closed_abort, would_block, sec_io,
  server_auth_completed, other, Conn,
}
use kodlang.Tls.{
  Globals, Texts, Session, SslRead, Transport, is_closed, is_no_err, take_more_of, minus, read_data,
  kod_tls_read,
}

-- The results that mean that the peer has closed the connection.
abbrev pub reports_close : OsStatus → Bool
reports_close closed_graceful = true
reports_close closed_no_notify = true
reports_close closed_abort = true
reports_close _ = false

is_closed_lem : (st : OsStatus) → is_closed st ≡ reports_close st
unfolding is_closed
is_closed_lem closed_graceful = refl
is_closed_lem closed_no_notify = refl
is_closed_lem closed_abort = refl
is_closed_lem no_err = refl
is_closed_lem would_block = refl
is_closed_lem sec_io = refl
is_closed_lem server_auth_completed = refl
is_closed_lem (other n) = refl

-- What Secure Transport says of its buffer: `SSLGetBufferedReadSize` gives the number of decrypted
-- bytes that no call has taken; `SSLRead` gives no more bytes than it is asked for, and gives at once
-- as many of them as are buffered.
pub record Buffering {C : Type 0} (ssl : Transport C) (pending : C → Bytes) : Type 0 where
  pub size : (c : C) → ssl.buffered c ≡ length (pending c)
  pub one : (c : C) (conn : Conn) → length (ssl.ssl_read 1 c conn).bytes ≤ 1
  pub taken :
      (n : ℕ) (c : C) (conn : Conn)
      → 0 < n
      → n ≤ length (pending c)
      → (left : C) × (ssl.ssl_read n c conn
          ≡ record { status = no_err; bytes = take n (pending c); ctx = left; conn = conn })
        × (pending left ≡ drop n (pending c))

or_false : (b : Bool) → (b || false) ≡ b
or_false true = refl
or_false false = refl

minus_lem : (max got : ℕ) → got ≤ max → max < 2 ^ 64 → minus max got ≡ max - got
unfolding minus
minus_lem max got h k = omega arith

module _ {C : Type 0} {ssl : Transport C} {pending : C → Bytes} (laws : Buffering ssl pending)
    (junk : ℕ → ℕ) where
  second_lem :
      (ask : ℕ) (first room : Bytes) (s : Session C)
      → ask ≤ length (pending s.ctx)
      → ask ≤ length room
      → (left : C) × ((if ltb 0 ask
            then take_more_of junk ssl ask (length first) (first ++ room) s
            else ok (record { chunk = first ++ room; got = length first; session = s }))
          ≡ ok (record {
            chunk = first ++ (take ask (pending s.ctx) ++ drop ask room);
            got = length first + ask;
            session = record s { ctx = left };
          }))
        × (pending left ≡ drop ask (pending s.ctx))
  unfolding take_more_of is_no_err
  second_lem zero first room s h k = (
    s.ctx,
    ap (λ m. ok (record { chunk = first ++ room; got = m; session = s })) {x = length first}
        (omega arith),
    refl,
  )
  second_lem (suc a) first room s h k =
      let (left, e, p) = laws.taken (suc a) s.ctx s.conn (omega arith) h in
      let n : length (take (suc a) (pending s.ctx)) ≡ suc a =
        omega (arith, length-take (suc a) (pending s.ctx)) in
      (
        left,
        rw
            (
              e,
              n,
              memcpy-append first room (take (suc a) (pending s.ctx)) (length first) (suc a) refl
                  (omega (arith, n)) k,
            )
            (rw (lt→ltb 0 (suc a) (omega arith)) refl),
        p,
      )

  text_lem :
      (xs pend rest : Bytes) (max a : ℕ)
      → length xs ≤ max
      → max ≤ 65536
      → a ≡ min (length pend) (max - length xs)
      → kod_str_from_bytes junk (xs ++ (take a pend ++ rest)) (length xs + a)
        ≡ ok (str_of (take max (xs ++ pend)))
  text_lem xs pend rest max a h k e =
      let all = xs ++ take a pend in
      let n : length all ≡ length xs + a =
        omega (arith, length-append xs (take a pend), length-take a pend) in
      ap₂ (λ b m. kod_str_from_bytes junk b m) (sym (append_assoc xs (take a pend) rest)) (sym n)
      ∙ kod_str_from_bytes_lem junk all rest (omega arith)
      ∙ ap (λ b. ok (str_of b)) (sym (take-append_rest max a xs pend h e))

  -- The steps of `read_data` one after another.
  chain_lem :
      (max : ℕ) (first : SslRead C) (s : Session C) (g : Globals) {left : C} {chunk chunk₂ : Bytes}
      {ask got₂ : ℕ} {text : KodStr}
      → memcpy (fresh junk 65536) 0 first.bytes 0 (length first.bytes) ≡ ok chunk
      → (if ltb (ssl.buffered s.ctx) (minus max (length first.bytes))
          then ssl.buffered s.ctx
          else minus max (length first.bytes))
        ≡ ask
      → (if ltb 0 ask
          then take_more_of junk ssl ask (length first.bytes) chunk s
          else ok (record { chunk = chunk; got = length first.bytes; session = s }))
        ≡ ok (record { chunk = chunk₂; got = got₂; session = record s { ctx = left } })
      → kod_str_from_bytes junk chunk₂ got₂ ≡ ok text
      → read_data junk ssl max first s g
        ≡ ok (record {
          text = text;
          session = record s { ctx = left; eof = is_closed first.status || s.eof };
          globals = g;
        })
  unfolding read_data
  chain_lem max first s g filled asked second copied = rw (filled, asked, second, copied) refl

  read_data_lem :
      (max : ℕ) (first : SslRead C) (s : Session C) (g : Globals)
      → 0 < max
      → max ≤ 65536
      → length first.bytes ≤ 1
      → (left : C) × (read_data junk ssl max first s g
          ≡ ok (record {
            text = str_of (take max (first.bytes ++ pending s.ctx));
            session = record s { ctx = left; eof = is_closed first.status || s.eof };
            globals = g;
          }))
        × (pending left ≡ drop max (first.bytes ++ pending s.ctx))
  read_data_lem max first s g some_asked few one =
      let pend = pending s.ctx in
      let got = length first.bytes in
      let a = min (length pend) (max - got) in
      let room = drop (0 + got) (fresh junk 65536) in
      let filled = memcpy-fresh junk 65536 first.bytes (omega arith) in
      let ask : (if ltb (length pend) (max - got) then length pend else max - got) ≡ a =
        ground arith in
      let roomy : a ≤ length room =
        omega (arith, length-drop (0 + got) (fresh junk 65536), length-fresh junk 65536) in
      let (left, e, p) = second_lem a first.bytes room s (omega arith) roomy in
      let text = text_lem first.bytes pend (drop a room) max a (omega arith) (omega arith) refl in
      (
        left,
        chain_lem max first s g filled
            (rw (laws.size s.ctx, minus_lem max got (omega arith) (omega arith)) ask) e text,
        p ∙ sym (drop-append_rest max a first.bytes pend (omega arith) refl),
      )

  -- On a session that has not ended, with a positive max and data available (what the first SSLRead
  -- gives and what Secure Transport has buffered behind it), where Secure Transport keeps what it
  -- documents of its buffer, kod_tls_read returns the first min(65536, max) bytes of that data with
  -- status 0 and leaves exactly the rest of it buffered; the stream counts as ended exactly if the
  -- first SSLRead reported a close. Where it did, no more data is available than is returned.
  pub kod_tls_read_lem :
      (t : Texts) (max : ℕ) (s : Session C) (g : Globals)
      → 0 < max
      → s.eof ≡ false
      → let first = ssl.ssl_read 1 s.ctx s.conn in
        let available = first.bytes ++ pending first.ctx in
        0 < length available
        → (reports_close first.status ≡ true → length available ≤ min 65536 max)
        → (left : C) × (kod_tls_read junk ssl t (pos max) s g
            ≡ ok (record {
              text = str_of (take (min 65536 max) available);
              session = record { ctx = left; conn = first.conn; eof = reports_close first.status };
              globals = record g { g_status = 0 };
            }))
          × (pending left ≡ drop (min 65536 max) available)
  unfolding kod_tls_read
  kod_tls_read_lem t max s g some_asked going some_there drained =
      let first = ssl.ssl_read 1 s.ctx s.conn in
      let pend = pending first.ctx in
      let g₁ = record g { g_status = 0 } in
      let s₁ : Session C = record { ctx = first.ctx; conn = first.conn; eof = false } in
      let (left, e, p) =
        read_data_lem (min 65536 max) first s₁ g₁ (omega arith) (omega arith)
          (laws.one s.ctx s.conn) in
      let there : ltb 0 (length first.bytes + length pend) ≡ true =
        lt→ltb 0 (length first.bytes + length pend)
          (omega (arith, length-append first.bytes pend)) in
      (
        left,
        rw
            (
              capped_lem max,
              lt→ltb (0 + 0) (min 65536 max + 0) (omega arith),
              laws.size first.ctx,
              there,
              going,
              e,
              or_false (is_closed first.status),
              is_closed_lem first.status,
            )
            refl,
        p,
      )
