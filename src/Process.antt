-- ===== src/Process.antt =====
-- The child processes of stdlib/runtime.c: `kod_run_process`, `kod_spawn` and `kod_exec`. What the system answers
-- is an argument: the ends of the pipes, whether the program starts, the rounds of `poll` and `read`,
-- and what `waitpid` reports.
pub mod Argv
pub mod Runs
mod Tests
use kodlang.Base.{
  ℕ, suc, ◌+◌, Bytes, List, [], ◌∷◌, Option, none, some, Bool, true, false, Run, ok, undefined,
  ◌>>=◌, add_int64, fresh, memcpy, store, length, ◌==◌, if◌then◌else◌,
}
use kodlang.Base.Int.{ℤ, pos, negsuc}
use kodlang.Capture.{Buffer, Round, capture, close}
use kodlang.Spawn.{Action, capture_actions, null_actions}
use kodlang.Str.{KodStr, kod_str_new}
use kodlang.Testing.{Console, fflush}

-- `for (i = 0; i < argc; i++) argv[i] = kod_argv[i]->buf;`, with a pointer to a text as that text.
unfoldable pub argv_loop : List KodStr → ℕ → List (Option Bytes) → Run (List (Option Bytes))
argv_loop [] i argv = ok argv
argv_loop (s ∷ rest) i argv = do written ← store argv i (some s.buf); argv_loop rest (i + 1) written

-- `none` is NULL.
unfoldable pub c_argv : (ℕ → Option Bytes) → List KodStr → Run (List (Option Bytes))
c_argv junk argv_arr = do
  size ← add_int64 (length argv_arr) 1
  filled ← argv_loop argv_arr 0 (fresh junk size)
  store filled (length argv_arr) none

pub record Ends : Type 0 where
  pub reading : ℕ
  pub writing : ℕ

-- `status` of `waitpid`: `WIFEXITED` with its code, or not.
pub data Exit : Type 0 where
  exited : ℕ → Exit
  signalled : Exit

unfoldable pub exit_status : Exit → ℤ
exit_status (exited code) = pos code
exit_status signalled = negsuc 0

-- From `waitpid` on, `none` where it fails: nothing has set `status` then, and it is read.
unfoldable pub wait_status : Option Exit → Run ℤ
wait_status none = undefined
wait_status (some e) = ok (exit_status e)

pub record ProcessResult : Type 0 where
  pub status : ℤ
  pub stdout_buf : KodStr
  pub stderr_buf : KodStr

-- The result, and the descriptors that are open when the call returns.
pub record Finished : Type 0 where
  pub result : ProcessResult
  pub open_fds : List ℕ

-- `argv[0]`, which must not be NULL where it is passed on.
unfoldable pub program : List (Option Bytes) → Run Bytes
program (some name ∷ argv) = ok name
program _ = undefined

module _ (junk : ℕ → ℕ) where
  -- Status -1 and empty strings.
  unfoldable pub not_started : List ℕ → Run Finished
  not_started fds = do
    out ← kod_str_new junk 0
    err ← kod_str_new junk 0
    ok (record {
      result = record { status = negsuc 0; stdout_buf = out; stderr_buf = err };
      open_fds = fds;
    })

  -- `char *buf = arena_alloc(cap + 1)` with `cap = 256`
  unfoldable pub new_buffer : Buffer
  new_buffer = record { bytes = fresh junk 257; len = 0; cap = 256 }

  unfoldable pub string_of : Buffer → Run KodStr
  string_of b = do
    s ← kod_str_new junk b.len
    buf ← memcpy s.buf 0 b.bytes 0 b.len
    ok (record s { buf = buf })

  -- From the child's start to its end.
  unfoldable pub capture_all : (out err : ℕ) → List Round → Option Exit → List ℕ → Run Finished
  capture_all out err rounds waited fds = do
    s ← capture junk rounds (record {
      out = record { fd = some out; buffer = new_buffer };
      err = record { fd = some err; buffer = new_buffer };
      open_count = 2;
      open_fds = fds;
    })
    out_str ← string_of s.out.buffer
    err_str ← string_of s.err.buffer
    status ← wait_status waited
    ok (record {
      result = record { status = status; stdout_buf = out_str; stderr_buf = err_str };
      open_fds = s.open_fds;
    })

  -- After `posix_spawnp`, with the writing ends closed.
  unfoldable pub start_child : List Round → Option Exit → Bool → Ends → Ends → List ℕ → Run Finished
  start_child rounds waited true out err fds = capture_all out.reading err.reading rounds waited fds
  start_child rounds waited false out err fds =
      not_started (close err.reading (close out.reading fds))

  -- `spawn` says whether `posix_spawnp` starts the program with these file actions and arguments.
  module _ (spawn : Bytes → List Action → List (Option Bytes) → Bool) (rounds : List Round)
      (waited : Option Exit) where
    unfoldable pub with_pipes : List (Option Bytes) → Ends → Ends → List ℕ → Run Finished
    with_pipes argv out err fds = do
      name ← program argv
      let actions = capture_actions out.reading out.writing err.reading err.writing
      start_child rounds waited (spawn name actions argv) out err
          (close err.writing (close out.writing fds))

    -- `first` and `second` are the pipes that `pipe` makes, `none` where it fails.
    unfoldable pub make_pipes :
        List (Option Bytes) → Option Ends → Option Ends → List ℕ → Run Finished
    make_pipes argv none second fds = not_started fds
    make_pipes argv (some out) none fds = not_started (out.reading ∷ out.writing ∷ fds)
    make_pipes argv (some out) (some err) fds =
        with_pipes argv out err (err.reading ∷ err.writing ∷ out.reading ∷ out.writing ∷ fds)

    unfoldable pub kod_run_process :
        (ℕ → Option Bytes) → List KodStr → Option Ends → Option Ends → List ℕ → Run Finished
    kod_run_process slots argv_arr first second fds =
        c_argv slots argv_arr >>= λ argv. make_pipes argv first second fds

-- `spawn` gives the child's pid; -1 stands for no child.
unfoldable pub kod_spawn :
    (ℕ → Option Bytes)
    → (Bytes → List Action → List (Option Bytes) → Option ℕ)
    → List KodStr
    → Run ℤ
kod_spawn slots spawn argv_arr =
    if length argv_arr == 0
    then ok (negsuc 0)
    else c_argv slots argv_arr >>= λ argv. program argv >>= λ name.
        elim (spawn name null_actions argv) [ none ↦ ok (negsuc 0) | some pid ↦ ok (pos pid) ]

-- 1 if the signal was sent; `reaped` holds the children that were waited for.
unfoldable pub kod_kill : (ℕ → Bool) → ℤ → List ℕ → ℕ × List ℕ
kod_kill kill (pos (suc n)) reaped = if kill (suc n) then (1, suc n ∷ reaped) else (0, reaped)
kod_kill kill _ reaped = (0, reaped)

-- What comes of `kod_exec`: another image in the place of this one, or its result.
pub data Executed : Type 0 where
  replaced : Bytes → List (Option Bytes) → Executed
  returned : ℤ → Executed

-- `exec` says whether `execvp` finds the program.
unfoldable pub kod_exec :
    (ℕ → Option Bytes)
    → (Bytes → List (Option Bytes) → Bool)
    → List KodStr
    → Console
    → Run (Executed × Console)
kod_exec slots exec argv_arr console =
    let run = c_argv slots argv_arr >>= λ argv. program argv >>= λ name.
    let after = if exec name argv then replaced name argv else returned (negsuc 0) in
    ok (after, fflush console) in
    if length argv_arr == 0 then ok (returned (negsuc 0), console) else run
