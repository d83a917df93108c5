-- ===== src/TlsIo/Writing.antt =====
-- What `write_cb` writes.
use kodlang.Base.{
  ℕ, zero, suc, ◌+◌, ◌<◌, ◌≤◌, ◌≡◌, ◌≢◌, refl, ap, ◌∙◌, Bytes, List, [], ◌∷◌, ok, take, length,
  take_more, lt→ltb, le→ltb, arith,
}
use kodlang.Fd.{Answer, returned, failed}
use kodlang.TlsIo.{no_err, Conn, Called, stopped, write_loop, write_cb}
use kodlang.TlsIo.Outcome.{Stop, filled, blocked, broken, status_of, noted}

module _ (eintr eagain epipe : ℕ) where
  -- With so many bytes to write, the answers take a number of them and then come to this end. A
  -- `write` takes some of the bytes; one that takes none stands for a broken pipe, and an interrupted
  -- one does not count.
  pub data Writes : ℕ → List (Answer ℕ) → ℕ → Stop → Type 0 where
    full : {room : ℕ} {answers : List (Answer ℕ)} → room ≡ 0 → Writes room answers 0 filled
    piece :
        {room more n rest all : ℕ} {answers : List (Answer ℕ)} {stop : Stop}
        → room ≡ suc n + more
        → all ≡ suc n + rest
        → Writes more answers rest stop
        → Writes room (returned (suc n) ∷ answers) all stop
    stuck :
        {room : ℕ} {answers : List (Answer ℕ)}
        → 0 < room
        → Writes room (returned zero ∷ answers) 0 (broken epipe)
    interrupted :
        {room err all : ℕ} {answers : List (Answer ℕ)} {stop : Stop}
        → 0 < room
        → err ≡ eintr
        → Writes room answers all stop
        → Writes room (failed err ∷ answers) all stop
    waits :
        {room err : ℕ} {answers : List (Answer ℕ)}
        → 0 < room
        → err ≡ eagain
        → Writes room (failed err ∷ answers) 0 blocked
    fails :
        {room err : ℕ} {answers : List (Answer ℕ)}
        → 0 < room
        → err ≢ eintr
        → err ≢ eagain
        → Writes room (failed err ∷ answers) 0 (broken err)

  write_loop-full :
      (answers : List (Answer ℕ)) (put : ℕ) (buf sent : Bytes) (c : Conn)
      → length buf ≤ put
      → write_loop eintr eagain epipe answers put buf sent c
        ≡ ok (record { status = no_err; len = put; bytes = sent; conn = c })
  unfolding write_loop
  write_loop-full [] put buf sent c h = rw (le→ltb put (length buf) h) refl
  write_loop-full (returned zero ∷ answers) put buf sent c h = rw (le→ltb put (length buf) h) refl
  write_loop-full (returned (suc n) ∷ answers) put buf sent c h =
      rw (le→ltb put (length buf) h) refl
  write_loop-full (failed err ∷ answers) put buf sent c h = rw (le→ltb put (length buf) h) refl

  -- What is left after `n` bytes in all.
  abbrev wrote : Bytes → Conn → ℕ → Stop → Called
  wrote buf c n stop = record {
    status = status_of stop;
    len = n;
    bytes = take n buf;
    conn = noted n stop c;
  }

  module _ (apart : eagain ≢ eintr) (buf : Bytes) (c : Conn) where
    write_loop_lem :
        {room n : ℕ} {answers : List (Answer ℕ)} {stop : Stop} (put : ℕ)
        → Writes room answers n stop
        → put + room ≡ length buf
        → write_loop eintr eagain epipe answers put buf (take put buf) c
          ≡ ok (wrote buf c (put + n) stop)
    unfolding write_loop stopped
    write_loop_lem put (full {answers = answers} r) e =
        write_loop-full answers put buf (take put buf) c (omega arith)
        ∙ ap (λ m. ok (wrote buf c m filled)) {x = put} (omega arith)
    write_loop_lem put (piece {n = n} {rest} {all} {stop = stop} r q d) e =
        rw (lt→ltb put (length buf) (omega arith), take_more (suc n) put (put + suc n) buf refl)
          (write_loop_lem (put + suc n) d (omega arith)
            ∙ ap (λ m. ok (wrote buf c m stop)) {x = put + suc n + rest} (omega arith))
    write_loop_lem put (stuck r) e =
        rw (lt→ltb put (length buf) (omega arith))
          (ap (λ m. ok (wrote buf c m (broken epipe))) {x = put} (omega arith))
    write_loop_lem put (interrupted r f d) e =
        rw (lt→ltb put (length buf) (omega arith)) (ground (arith, f, write_loop_lem put d e))
    write_loop_lem put (waits r f) e =
        rw (lt→ltb put (length buf) (omega arith)) (ground (arith, f, apart))
    write_loop_lem put (fails r f k) e =
        rw (lt→ltb put (length buf) (omega arith)) (ground (arith, f, k))

    -- With EAGAIN and EINTR different, and answers of write that take no more than is left and come
    -- to an end (interruptions not counted), write_cb returns. The system has got exactly the first
    -- *len bytes of the data, in order; the result is noErr where that is all of it,
    -- errSSLWouldBlock on EAGAIN, and errSecIO on another error, whose number, or EPIPE where a
    -- write takes nothing, is noted in the connection.
    pub write_cb_lem :
        {n : ℕ} {answers : List (Answer ℕ)} {stop : Stop}
        → Writes (length buf) answers n stop
        → write_cb eintr eagain epipe answers buf c
          ≡ ok (record {
            status = status_of stop;
            len = n;
            bytes = take n buf;
            conn = noted n stop c;
          })
    unfolding write_cb
    write_cb_lem {n} {stop = stop} d =
        write_loop_lem 0 d (omega arith)
        ∙ ap (λ m. ok (wrote buf c m stop)) {x = 0 + n} (omega arith)
