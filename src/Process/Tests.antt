-- ===== src/Process/Tests.antt =====
-- Child processes with small outputs, and the theorems at them.
use kodlang.Base.{
  ℕ, ◌≡◌, refl, Bytes, List, [], ◌∷◌, Option, none, some, true, false, ok, codes, add_int64, fresh,
  memcpy, store, arith, mul_int64,
}
use kodlang.Base.Int.{pos, negsuc}
use kodlang.Capture.{regrown, append_to_buf, idle, arrived, ended, Round, polled}
use kodlang.Growth.{grow}
use kodlang.Process.{
  Ends, exited, kod_run_process, kod_spawn, kod_exec, replaced, c_argv, argv_loop, program,
}
use kodlang.Process.Runs.{Distinct, kod_run_process_lem, kod_run_process_refused}
use kodlang.Str.Repr.{str_of}
use kodlang.Testing.{fflush}

abbrev zeros : ℕ → ℕ
zeros i = 0

abbrev nulls : ℕ → Option Bytes
nulls i = none

abbrev out_pipe : Ends
out_pipe = record { reading = 3; writing = 4 }

abbrev err_pipe : Ends
err_pipe = record { reading = 5; writing = 6 }

pipes-Distinct : Distinct out_pipe err_pipe
pipes-Distinct = record {
  out_ends = omega arith;
  err_ends = omega arith;
  readings = omega arith;
  writings = omega arith;
  out_err = omega arith;
  err_out = omega arith;
}

-- Stdout comes in two pieces and ends first.
abbrev rounds : List Round
rounds =
    polled (arrived (codes "ab")) idle
    ∷ polled (arrived (codes "c")) (arrived (codes "warn"))
    ∷ polled ended idle
    ∷ polled idle ended
    ∷ []

grows :
    append_to_buf zeros (record { bytes = 7 ∷ 8 ∷ 0 ∷ []; len = 2; cap = 2 }) (9 ∷ []) 1
    ≡ ok (record { bytes = 7 ∷ 8 ∷ 9 ∷ 0 ∷ 0 ∷ []; len = 3; cap = 4 })
unfolding append_to_buf regrown grow add_int64 mul_int64 memcpy fresh
grows = refl

spawns : kod_spawn nulls (λ name actions argv. some 42) (str_of (codes "ls") ∷ []) ≡ ok (pos 42)
unfolding kod_spawn c_argv argv_loop program add_int64 fresh store
spawns = refl

spawns_nothing : kod_spawn nulls (λ name actions argv. some 42) [] ≡ ok (negsuc 0)
unfolding kod_spawn
spawns_nothing = refl

kod_run_process_lem_example :
    kod_run_process zeros
      (λ name actions argv. true)
      rounds
      (some (exited 7))
      nulls
      (str_of (codes "ls") ∷ [])
      (some out_pipe)
      (some err_pipe)
      (0 ∷ 1 ∷ 2 ∷ [])
    ≡ ok (record {
      result = record {
        status = pos 7;
        stdout_buf = str_of (codes "abc");
        stderr_buf = str_of (codes "warn");
      };
      open_fds = 0 ∷ 1 ∷ 2 ∷ [];
    })
kod_run_process_lem_example =
    kod_run_process_lem zeros rounds (exited 7) (λ name actions argv. true) nulls
      (str_of (codes "ls")) [] out_pipe err_pipe (0 ∷ 1 ∷ 2 ∷ []) (omega arith) pipes-Distinct refl
      tt tt (omega arith) (omega arith) (omega arith)

kod_run_process_refused_example :
    kod_run_process zeros
      (λ name actions argv. false)
      rounds
      (some (exited 7))
      nulls
      (str_of (codes "ls") ∷ [])
      (some out_pipe)
      (some err_pipe)
      []
    ≡ ok (record {
      result = record { status = negsuc 0; stdout_buf = str_of []; stderr_buf = str_of [] };
      open_fds = [];
    })
kod_run_process_refused_example =
    kod_run_process_refused zeros rounds (exited 7) (λ name actions argv. false) nulls
      (str_of (codes "ls")) [] out_pipe err_pipe [] (omega arith) pipes-Distinct refl

executes :
    kod_exec nulls
      (λ name argv. true)
      (str_of (codes "ls") ∷ [])
      (record { place = codes "a"; buffered = codes "b" })
    ≡ ok (
      replaced (str_of (codes "ls")).buf (some (str_of (codes "ls")).buf ∷ none ∷ []),
      record { place = codes "ab"; buffered = [] },
    )
unfolding kod_exec c_argv argv_loop program fflush add_int64 fresh store
executes = refl
