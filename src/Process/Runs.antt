-- ===== src/Process/Runs.antt =====
-- What `kod_run_process` returns, and which descriptors it leaves open.
use kodlang.Base.{
  ℕ, ◌^◌, ◌<◌, ◌≡◌, ◌≢◌, refl, ap, ap₂, ◌∙◌, Bytes, List, [], ◌∷◌, ◌++◌, Option, none, some, Bool,
  true, false, ok, ◌>>=◌, fresh, length-fresh, length, length-append, take-append, memcpy, arith,
}
use kodlang.Base.Int.{ℤ, pos, negsuc}
use kodlang.Capture.{Buffer, Round, close}
use kodlang.Capture.Buffers.{Filled}
use kodlang.Capture.Loop.{At, capture_lem}
use kodlang.Capture.Streams.{of_stdout, of_stderr, text_of, Ends, Small}
use kodlang.Process.{
  Ends as PipeEnds, Exit, exited, signalled, exit_status, wait_status, program, not_started,
  new_buffer, string_of, capture_all, start_child, with_pipes, make_pipes, kod_run_process,
}
use kodlang.Process.Argv.{arguments, c_argv_lem}
use kodlang.Spawn.{Action, capture_actions}
use kodlang.Str.{KodStr, kod_str_new}
use kodlang.Str.Repr.{str_of, kod_str_new_lem, new_fill}

-- The status that a program's end stands for: its exit code, or -1.
abbrev pub status_of : Exit → ℤ
status_of (exited code) = pos code
status_of signalled = negsuc 0

exit_status_lem : (exit : Exit) → exit_status exit ≡ status_of exit
unfolding exit_status
exit_status_lem (exited code) = refl
exit_status_lem signalled = refl

-- The four descriptors of two pipes are different.
pub record Distinct (out err : PipeEnds) : Type 0 where
  pub out_ends : out.reading ≢ out.writing
  pub err_ends : err.reading ≢ err.writing
  pub readings : out.reading ≢ err.reading
  pub writings : out.writing ≢ err.writing
  pub out_err : out.reading ≢ err.writing
  pub err_out : err.reading ≢ out.writing

-- The child's descriptors are set up for these pipes.
abbrev pub actions_for : PipeEnds → PipeEnds → List Action
actions_for out err = capture_actions out.reading out.writing err.reading err.writing

close_writings :
    (out err : PipeEnds) (fds : List ℕ)
    → Distinct out err
    → close err.writing
        (close out.writing (err.reading ∷ err.writing ∷ out.reading ∷ out.writing ∷ fds))
      ≡ err.reading ∷ out.reading ∷ fds
unfolding close
close_writings out err fds d =
    ground (arith, d.out_ends, d.err_ends, d.readings, d.writings, d.out_err, d.err_out)

close_readings :
    (out err : PipeEnds) (fds : List ℕ)
    → Distinct out err
    → close err.reading (close out.reading (err.reading ∷ out.reading ∷ fds)) ≡ fds
unfolding close
close_readings out err fds d = ground (arith, d.readings)

module _ (junk : ℕ → ℕ) where
  string_of_lem :
      (xs : Bytes) (b : Buffer)
      → Filled xs b
      → length xs < 2 ^ 60
      → string_of junk b ≡ ok (str_of xs)
  unfolding string_of
  string_of_lem xs b v small =
      ap₂
        (λ n t. (do
          s ← kod_str_new junk n
          buf ← memcpy s.buf 0 t 0 n
          ok (record s { buf = buf })))
        v.len v.bytes
      ∙ new_fill junk (xs ++ v.room) 0 (length xs) (omega arith)
          (omega (arith, length-append xs v.room))
      ∙ ap (λ t. ok (record { buf = t ++ 0 ∷ []; len = length xs }))
          (take-append (length xs) xs v.room refl)

  new_buffer-Filled : Filled [] (new_buffer junk)
  unfolding new_buffer
  new_buffer-Filled = record {
    room = fresh junk 257;
    bytes = refl;
    len = refl;
    block = length-fresh junk 257;
    within = omega arith;
    positive = omega arith;
  }

  not_started_lem :
      (fds : List ℕ)
      → not_started junk fds
        ≡ ok (record {
          result = record { status = negsuc 0; stdout_buf = str_of []; stderr_buf = str_of [] };
          open_fds = fds;
        })
  unfolding not_started
  not_started_lem fds = rw (kod_str_new_lem junk 0 (omega arith)) (unfold fresh in refl)

  module _ (rounds : List Round) (exit : Exit) where
    capture_all_lem :
        (out err : ℕ) (fds : List ℕ)
        → out ≢ err
        → Ends of_stdout rounds
        → Ends of_stderr rounds
        → Small rounds
        → length (text_of of_stdout rounds) < 2 ^ 60
        → length (text_of of_stderr rounds) < 2 ^ 60
        → capture_all junk out err rounds (some exit) (err ∷ out ∷ fds)
          ≡ ok (record {
            result = record {
              status = status_of exit;
              stdout_buf = str_of (text_of of_stdout rounds);
              stderr_buf = str_of (text_of of_stderr rounds);
            };
            open_fds = fds;
          })
    unfolding capture_all wait_status
    capture_all_lem out err fds apart end_x end_y small few_x few_y =
        let b : Buffer = new_buffer junk in
        let v : At junk out err apart fds true true [] [] (record {
          out = record { fd = some out; buffer = b };
          err = record { fd = some err; buffer = b };
          open_count = 2;
          open_fds = err ∷ out ∷ fds;
        }) =
          record {
            out = record { fd = refl; filled = new_buffer-Filled };
            err = record { fd = refl; filled = new_buffer-Filled };
            open_count = refl;
            open_fds = refl;
          } in
        let (s, e, d) =
          capture_lem junk out err apart fds rounds true true [] [] _ v small end_x end_y
            (omega arith) (omega arith) in
        rw (
          e,
          string_of_lem (text_of of_stdout rounds) s.out.buffer d.out few_x,
          string_of_lem (text_of of_stderr rounds) s.err.buffer d.err few_y,
          d.open_fds,
          exit_status_lem exit,
        )

    module _ (spawn : Bytes → List Action → List (Option Bytes) → Bool) (slots : ℕ → Option Bytes)
        (argv0 : KodStr) (args : List KodStr) (out err : PipeEnds) (fds : List ℕ)
        (few : length args < 2 ^ 59) (d : Distinct out err) where
      with_pipes_lem :
          kod_run_process junk spawn rounds
            (some exit)
            slots
            (argv0 ∷ args)
            (some out)
            (some err)
            fds
          ≡ start_child junk rounds
              (some exit)
              (spawn argv0.buf (actions_for out err) (arguments (argv0 ∷ args) ++ none ∷ []))
              out
              err
              (err.reading ∷ out.reading ∷ fds)
      unfolding kod_run_process make_pipes with_pipes program
      with_pipes_lem =
          rw (c_argv_lem slots (argv0 ∷ args) (omega arith), close_writings out err fds d)

      -- With at least one argument and fewer than 2 ^ 59 further ones, both pipes made with four
      -- different descriptors, a program that starts, both streams ending before poll fails, at
      -- most 4096 bytes a read, under 2 ^ 60 bytes a stream, and a waitpid that gives the child's
      -- end, kod_run_process returns. It gives the exit status (-1 if the child did not exit) and
      -- the whole text of each stream in order, however the reads of the two interleave, and the
      -- descriptors open afterwards are those open before.
      pub kod_run_process_lem :
          spawn argv0.buf (actions_for out err) (arguments (argv0 ∷ args) ++ none ∷ []) ≡ true
          → Ends of_stdout rounds
          → Ends of_stderr rounds
          → Small rounds
          → length (text_of of_stdout rounds) < 2 ^ 60
          → length (text_of of_stderr rounds) < 2 ^ 60
          → kod_run_process junk spawn rounds
              (some exit)
              slots
              (argv0 ∷ args)
              (some out)
              (some err)
              fds
            ≡ ok (record {
              result = record {
                status = status_of exit;
                stdout_buf = str_of (text_of of_stdout rounds);
                stderr_buf = str_of (text_of of_stderr rounds);
              };
              open_fds = fds;
            })
      unfolding start_child
      kod_run_process_lem started end_x end_y small few_x few_y =
          with_pipes_lem
          ∙ rw started
              (capture_all_lem out.reading err.reading fds d.readings end_x end_y small few_x few_y)

      -- With at least one argument and fewer than 2 ^ 59 further ones, and both pipes made with
      -- four different descriptors, a program that does not start gives status -1 and two empty
      -- strings, and the descriptors open afterwards are those open before.
      pub kod_run_process_refused :
          spawn argv0.buf (actions_for out err) (arguments (argv0 ∷ args) ++ none ∷ []) ≡ false
          → kod_run_process junk spawn rounds
              (some exit)
              slots
              (argv0 ∷ args)
              (some out)
              (some err)
              fds
            ≡ ok (record {
              result = record { status = negsuc 0; stdout_buf = str_of []; stderr_buf = str_of [] };
              open_fds = fds;
            })
      unfolding start_child
      kod_run_process_refused refused =
          with_pipes_lem ∙ rw (refused, close_readings out err fds d) (not_started_lem fds)
