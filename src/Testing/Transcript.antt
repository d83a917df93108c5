-- ===== src/Testing/Transcript.antt =====
-- What the test framework prints, and that stdout and stderr keep their order.
use kodlang.Base.{
  ℕ, ◌+◌, ◌^◌, ◌<◌, ◌≡◌, refl, ap, ap₂, subst, ◌∙◌, sym, Bytes, List, [], ◌∷◌, ◌++◌, Bool, true,
  false, ok, length, append_assoc, append-nil, codes, if◌then◌else◌, arith, eq_of_ok-eq-ok, take,
  drop, take-append-drop,
}
use kodlang.Base.Int.{ℤ, pos, negsuc, ◌-ℤ◌}
use kodlang.Testing.{
  Console, write_out, write_err, fflush, spill, TestState, start, newline, kod_test_reset,
  kod_test_fail, kod_test_module_begin, kod_puts, report_line, Call, resets, fails, module_begins,
  reports, puts, spills, call, after,
}
use kodlang.Testing.Counts.{Counts, failing, call_lem, after_start, kod_test_report_lem}

-- The time of the last reset, or -1, and whether a group was begun; the latest call comes first.
abbrev pub last_reset : List Call → ℤ
last_reset [] = negsuc 0
last_reset (resets now ∷ earlier) = pos now
last_reset (_ ∷ earlier) = last_reset earlier

abbrev pub grouped : List Call → Bool
grouped [] = false
grouped (module_begins path ∷ earlier) = true
grouped (_ ∷ earlier) = grouped earlier

module _ (format_duration : ℤ → Bytes) where
  -- What a call adds to the text, after the calls before it.
  abbrev pub text_of : List Call → Call → Bytes
  text_of earlier (resets now) = []
  text_of earlier (fails msg) = codes "      " ++ (msg ++ newline)
  text_of earlier (module_begins path) =
      (if grouped earlier then newline else []) ++ (path ++ newline)
  text_of earlier (reports now name) =
      (if failing earlier then codes "  FAIL " else codes "  ok   ")
      ++ (name
          ++ (codes " ("
              ++ (format_duration (pos now -ℤ last_reset earlier) ++ (codes ")" ++ newline))))
  text_of earlier (puts text) = text ++ newline
  text_of earlier (spills n) = []

  abbrev pub transcript : List Call → Bytes
  transcript [] = []
  transcript (c ∷ earlier) = transcript earlier ++ text_of earlier c

-- All that the program has written.
abbrev pub shown : Console → Bytes
shown c = c.place ++ c.buffered

shown-write_out : (xs : Bytes) (c : Console) → shown (write_out xs c) ≡ shown c ++ xs
unfolding write_out
shown-write_out xs c = sym (append_assoc c.place c.buffered xs)

shown-fflush : (c : Console) → shown (fflush c) ≡ shown c
unfolding fflush
shown-fflush c = append-nil (shown c)

shown-spill : (n : ℕ) (c : Console) → shown (spill n c) ≡ shown c
unfolding spill
shown-spill n c =
    append_assoc c.place (take n c.buffered) (drop n c.buffered)
    ∙ ap (λ b. c.place ++ b) (take-append-drop n c.buffered)

shown-fail :
    (msg : Bytes) (s : TestState)
    → shown (kod_test_fail msg s).console ≡ shown s.console ++ (codes "      " ++ (msg ++ newline))
unfolding kod_test_fail fflush write_err
shown-fail msg s = simp (append_assoc, append-nil)

reset_keeps :
    (now : ℕ) (s : TestState)
    → ((kod_test_reset now s).group_seen ≡ s.group_seen)
      × ((kod_test_reset now s).console ≡ s.console)
unfolding kod_test_reset
reset_keeps now s = ground arith

separated :
    (seen : Bool) (c : Console)
    → shown (if seen then write_out newline c else c) ≡ shown c ++ (if seen then newline else [])
separated true c = shown-write_out newline c
separated false c = sym (append-nil (shown c))

shown-begin :
    (path : Bytes) (s : TestState)
    → shown (kod_test_module_begin path s).console
      ≡ shown s.console ++ ((if s.group_seen then newline else []) ++ (path ++ newline))
unfolding kod_test_module_begin
shown-begin path s =
    let first = if s.group_seen then write_out newline s.console else s.console in
    shown-fflush (write_out newline (write_out path first))
    ∙ shown-write_out newline (write_out path first)
    ∙ ap (λ b. b ++ newline) (shown-write_out path first)
    ∙ ap (λ b. b ++ path ++ newline) (separated s.group_seen s.console)
    ∙ simp append_assoc

shown-puts :
    (text : Bytes) (s : TestState)
    → shown (kod_puts text s).console ≡ shown s.console ++ (text ++ newline)
unfolding kod_puts
shown-puts text s =
    shown-write_out newline (write_out text s.console)
    ∙ ap (λ b. b ++ newline) (shown-write_out text s.console)
    ∙ append_assoc (shown s.console) text newline

module _ (decimal : ℕ → Bytes) (format_duration : ℤ → Bytes) where
  shown-report :
      (now : ℕ) (name : Bytes) (s : TestState) {bad : Bool} {since : ℤ}
      → s.failed ≡ bad
      → s.case_start_ns ≡ since
      → shown (report_line decimal format_duration now name s)
        ≡ shown s.console
          ++ ((if bad then codes "  FAIL " else codes "  ok   ")
              ++ (name
                  ++ (codes " ("
                      ++ (format_duration (pos now -ℤ since) ++ (codes ")" ++ newline)))))
  unfolding report_line
  shown-report now name s {bad} {since} e f =
      let tag : Bytes = if s.failed then codes "  FAIL " else codes "  ok   " in
      let end : Bytes =
        codes " (" ++ (format_duration (pos now -ℤ s.case_start_ns) ++ (codes ")" ++ newline)) in
      shown-fflush (write_out end (write_out name (write_out tag s.console)))
      ∙ shown-write_out end (write_out name (write_out tag s.console))
      ∙ ap (λ b. b ++ end) (shown-write_out name (write_out tag s.console))
      ∙ ap (λ b. b ++ name ++ end) (shown-write_out tag s.console)
      ∙ (append_assoc (shown s.console ++ tag) name end
          ∙ append_assoc (shown s.console) tag (name ++ end))
      ∙ ap₂
          (λ (g : Bool) (t : ℤ).
            shown s.console
            ++ ((if g then codes "  FAIL " else codes "  ok   ")
                ++ (name
                    ++ (codes " (" ++ (format_duration (pos now -ℤ t) ++ (codes ")" ++ newline))))))
          e f

module _ (decimal : ℕ → Bytes) (format_duration : ℤ → Bytes) where
  pub record Says (cs : List Call) (s : TestState) : Type 0 where
    pub since : s.case_start_ns ≡ last_reset cs
    pub seen : s.group_seen ≡ grouped cs
    pub text : shown s.console ≡ transcript format_duration cs

  call-Says :
      (c : Call) (cs : List Call) (s s' : TestState)
      → Counts cs s
      → Says cs s
      → length cs + 1 < 2 ^ 31
      → call decimal format_duration s c ≡ ok s'
      → Says (c ∷ cs) s'
  unfolding call
  call-Says (resets now) cs s s' v w h e =
      subst (Says (resets now ∷ cs)) (eq_of_ok-eq-ok e) (record {
        since = unfold kod_test_reset in refl;
        seen = (reset_keeps now s).0 ∙ w.seen;
        text =
            ap shown (reset_keeps now s).1
            ∙ w.text
            ∙ sym (append-nil (transcript format_duration cs));
      })
  call-Says (fails msg) cs s s' v w h e = subst (Says (fails msg ∷ cs)) (eq_of_ok-eq-ok e) (record {
    since = unfold kod_test_fail in w.since;
    seen = unfold kod_test_fail in w.seen;
    text = shown-fail msg s ∙ ap (λ b. b ++ text_of format_duration cs (fails msg)) w.text;
  })
  call-Says (module_begins path) cs s s' v w h e =
      subst (Says (module_begins path ∷ cs)) (eq_of_ok-eq-ok e) (record {
        since = unfold kod_test_module_begin in w.since;
        seen = unfold kod_test_module_begin in refl;
        text =
            shown-begin path s
            ∙ ap₂ (λ b (g : Bool). b ++ ((if g then newline else []) ++ (path ++ newline))) w.text
                w.seen;
      })
  call-Says (reports now name) cs s s' v w h e =
      let f =
        eq_of_ok-eq-ok (sym (kod_test_report_lem decimal format_duration now name cs s v h) ∙ e) in
      subst (Says (reports now name ∷ cs)) f (record {
        since = w.since;
        seen = w.seen;
        text =
            shown-report decimal format_duration now name s v.failed w.since
            ∙ ap (λ b. b ++ text_of format_duration cs (reports now name)) w.text;
      })
  call-Says (puts text) cs s s' v w h e = subst (Says (puts text ∷ cs)) (eq_of_ok-eq-ok e) (record {
    since = unfold kod_puts in w.since;
    seen = unfold kod_puts in w.seen;
    text = shown-puts text s ∙ ap (λ b. b ++ (text ++ newline)) w.text;
  })
  call-Says (spills n) cs s s' v w h e = subst (Says (spills n ∷ cs)) (eq_of_ok-eq-ok e) (record {
    since = w.since;
    seen = w.seen;
    text = shown-spill n s.console ∙ w.text ∙ sym (append-nil (transcript format_duration cs));
  })

  after-Says :
      (cs : List Call)
      → length cs < 2 ^ 31
      → (s : TestState) × (after decimal format_duration cs ≡ ok s) × Counts cs s × Says cs s
  unfolding after
  after-Says [] h = (start, refl, after_start, record { since = refl; seen = refl; text = refl })
  after-Says (c ∷ cs) h =
      let (s, e, v, w) = after-Says cs (omega arith) in
      let (s', f, v') = call_lem decimal format_duration c cs s v (omega arith) in
      (s', rw e f, v', call-Says c cs s s' v w (omega arith) f)

  -- Any fewer than 2 ^ 31 calls run to a state in which what has arrived, and then what stdout
  -- still holds, is the text of the calls in the order they were made, on both streams, wherever
  -- the C library has written stdout out by itself.
  pub after-transcript :
      (cs : List Call)
      → length cs < 2 ^ 31
      → (s : TestState) × (after decimal format_duration cs ≡ ok s)
        × (s.console.place ++ s.console.buffered ≡ transcript format_duration cs)
  after-transcript cs h = let (s, e, _, w) = after-Says cs h in (s, e, w.text)
