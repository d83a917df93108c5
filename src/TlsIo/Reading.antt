-- ===== src/TlsIo/Reading.antt =====
-- What `read_cb` reads.
use kodlang.Base.{
  ℕ, ◌+◌, ◌<◌, ◌≤◌, ◌≡◌, ◌≢◌, refl, ap, ap₂, sym, ◌∙◌, Bytes, List, [], ◌∷◌, ◌++◌, ok,
  memcpy-append, drop, length, length-append, length-drop, drop-drop, append_assoc, lt→ltb, le→ltb,
  arith,
}
use kodlang.Fd.{Answer, returned, failed}
use kodlang.TlsIo.{no_err, closed_graceful, Conn, stopped, read_loop, read_cb}
use kodlang.TlsIo.Outcome.{Stop, filled, ended, blocked, broken, status_of, noted}

module _ (eintr eagain : ℕ) where
  -- With room for some bytes, the answers bring these bytes and then this end. A `read` brings some
  -- bytes and no more than there is room for, or none at the end of the stream; an interrupted one
  -- does not count.
  pub data Reads : ℕ → List (Answer Bytes) → Bytes → Stop → Type 0 where
    full : {room : ℕ} {answers : List (Answer Bytes)} → room ≡ 0 → Reads room answers [] filled
    piece :
        {room more : ℕ} {b : ℕ} {bytes text whole : Bytes} {answers : List (Answer Bytes)}
        {stop : Stop}
        → room ≡ length (b ∷ bytes) + more
        → whole ≡ (b ∷ bytes) ++ text
        → Reads more answers text stop
        → Reads room (returned (b ∷ bytes) ∷ answers) whole stop
    at_end :
        {room : ℕ} {answers : List (Answer Bytes)}
        → 0 < room
        → Reads room (returned [] ∷ answers) [] ended
    interrupted :
        {room err : ℕ} {text : Bytes} {answers : List (Answer Bytes)} {stop : Stop}
        → 0 < room
        → err ≡ eintr
        → Reads room answers text stop
        → Reads room (failed err ∷ answers) text stop
    waits :
        {room err : ℕ} {answers : List (Answer Bytes)}
        → 0 < room
        → err ≡ eagain
        → Reads room (failed err ∷ answers) [] blocked
    fails :
        {room err : ℕ} {answers : List (Answer Bytes)}
        → 0 < room
        → err ≢ eintr
        → err ≢ eagain
        → Reads room (failed err ∷ answers) [] (broken err)

  read_loop-full :
      (answers : List (Answer Bytes)) (got want : ℕ) (buf : Bytes) (c : Conn)
      → want ≤ got
      → read_loop eintr eagain answers got want buf c
        ≡ ok (record { status = no_err; len = got; bytes = buf; conn = c })
  unfolding read_loop
  read_loop-full [] got want buf c h = rw (le→ltb got want h) refl
  read_loop-full (returned [] ∷ answers) got want buf c h = rw (le→ltb got want h) refl
  read_loop-full (returned (b ∷ bytes) ∷ answers) got want buf c h = rw (le→ltb got want h) refl
  read_loop-full (failed err ∷ answers) got want buf c h = rw (le→ltb got want h) refl

  module _ (apart : eagain ≢ eintr) where
    read_loop_lem :
        {room : ℕ} {answers : List (Answer Bytes)} {text : Bytes} {stop : Stop} (c : Conn)
        (done old : Bytes) (got want : ℕ)
        → Reads room answers text stop
        → room ≡ length old
        → got ≡ length done
        → want ≡ length done + length old
        → read_loop eintr eagain answers got want (done ++ old) c
          ≡ ok (record {
            status = status_of stop;
            len = got + length text;
            bytes = done ++ (text ++ drop (length text) old);
            conn = noted (got + length text) stop c;
          })
    unfolding read_loop stopped
    read_loop_lem c done old got want (full {answers = answers} r) e g w =
        read_loop-full answers got want (done ++ old) c (omega arith)
        ∙ ap (λ m. ok (record { status = no_err; len = m; bytes = done ++ old; conn = c }))
            (omega arith)
    read_loop_lem c done old got want
          (piece {more = more} {b} {bytes} {text} {whole} {stop = stop} r q d) e g w =
        let n = length (b ∷ bytes) in
        let next = (b ∷ bytes) ++ drop n old in
        let read = memcpy-append done old (b ∷ bytes) got n g refl (omega arith) in
        let rest =
          read_loop_lem c (done ++ (b ∷ bytes)) (drop n old) (got + n) want d
            (omega (arith, length-drop n old)) (omega (arith, length-append done (b ∷ bytes)))
            (omega (arith, length-append done (b ∷ bytes), length-drop n old)) in
        let len_whole : length whole ≡ n + length text =
          ap length q ∙ length-append (b ∷ bytes) text in
        let joined : (done ++ (b ∷ bytes)) ++ (text ++ drop (length text) (drop n old))
            ≡ done ++ (whole ++ drop (length whole) old) =
          append_assoc done (b ∷ bytes) (text ++ drop (length text) (drop n old))
          ∙ ap (λ z. done ++ z)
              (sym (append_assoc (b ∷ bytes) text (drop (length text) (drop n old))))
          ∙ ap₂ (λ w o. done ++ (w ++ o)) (sym q)
              (drop-drop (length text) n (length whole) old (omega (arith, len_whole))) in
        rw
          (
            lt→ltb got want (omega arith),
            read,
            sym (append_assoc done (b ∷ bytes) (drop n old)),
            rest,
          )
          (ap₂
            (λ m all.
              ok (record { status = status_of stop; len = m; bytes = all; conn = noted m stop c }))
            {x = got + n + length text} (omega arith) joined)
    read_loop_lem c done old got want (at_end r) e g w = rw (lt→ltb got want (omega arith)) (
        ap
          (λ m. ok (record {
            status = closed_graceful;
            len = m;
            bytes = done ++ old;
            conn = noted m ended c;
          }))
          {x = got} (omega arith))
    read_loop_lem c done old got want (interrupted r f d) e g w =
        rw (lt→ltb got want (omega arith))
          (ground (arith, f, read_loop_lem c done old got want d e g w))
    read_loop_lem c done old got want (waits r f) e g w =
        rw (lt→ltb got want (omega arith)) (ground (arith, f, apart))
    read_loop_lem c done old got want (fails r f k) e g w =
        rw (lt→ltb got want (omega arith)) (ground (arith, f, k))

    -- With EAGAIN and EINTR different, and answers of read that fit the room and come to an end
    -- (interruptions not counted), read_cb returns. The buffer starts with the bytes read, in
    -- order, and is otherwise as it was; *len is their number; the result is noErr where the buffer
    -- is full, errSSLClosedGraceful at the end of the stream, errSSLWouldBlock on EAGAIN and
    -- errSecIO on another error. Only that end is noted in the connection, a clean end only if no
    -- byte came before it.
    pub read_cb_lem :
        {answers : List (Answer Bytes)} {text : Bytes} {stop : Stop} (buf : Bytes) (c : Conn)
        → Reads (length buf) answers text stop
        → read_cb eintr eagain answers buf c
          ≡ ok (record {
            status = status_of stop;
            len = length text;
            bytes = text ++ drop (length text) buf;
            conn = noted (length text) stop c;
          })
    unfolding read_cb
    read_cb_lem {text = text} {stop} buf c d =
        read_loop_lem c [] buf 0 (length buf) d refl refl (omega arith)
        ∙ ap
            (λ m. ok (record {
              status = status_of stop;
              len = m;
              bytes = text ++ drop (length text) buf;
              conn = noted m stop c;
            }))
            {x = 0 + length text} (omega arith)
