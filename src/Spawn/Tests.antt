-- ===== src/Spawn/Tests.antt =====
-- A child of a process with its standard descriptors, and one of a process without them.
use kodlang.Base.{
  ◌≡◌, refl, Bytes, [], ◌∷◌, Option, none, some, Bool, ◌==◌, if◌then◌else◌, arith, ltb, ◌||◌,
}
use kodlang.Spawn.{
  Action, add_close, add_dup2, add_open, capture_actions, null_actions, dev_null, System, Table,
  child_table,
}
use kodlang.Spawn.Child.{Performs, kept, opened, without_flag, capture_actions_lem}

-- A file is its name.
abbrev path_file : Bytes → Bool → Option Bytes
path_file path writes = some path

abbrev performed : Action → Table Bytes → Table Bytes
performed (add_close n) t = λ k. if k == n then none else t k
performed (add_dup2 a b) t = λ k. if k == b then without_flag (t a) else t k
performed (add_open n path writes) t = λ k. if k == n then opened (some path) else t k

abbrev system : System Bytes
system = record { perform = performed; exec = λ t k. kept (t k) }

system-Performs : Performs path_file system
system-Performs = record {
  close = λ n k t. refl;
  dup2 = λ a b k t n. refl;
  open_file = λ n k path writes t. refl;
  exec = λ k t. refl;
}

-- Every descriptor has a file of its own, and that of 7 is not for the child.
abbrev before : Table Bytes
before k = if ltb k 8 then some (record { file = k ∷ []; cloexec = k == 7 }) else none

capture_actions_lem_example : child_table system (capture_actions 3 4 5 6) before 2 ≡ (
    if 2 == 1
    then without_flag (before 4)
    else if 2 == 2
    then without_flag (before 6)
    else if 2 == 3 || 2 == 4 || 2 == 5 || 2 == 6
    then none
    else kept (before 2))
capture_actions_lem_example =
    capture_actions_lem system-Performs 3 4 5 6 before (omega arith) (omega arith) (omega arith)
      (omega arith) (λ e. absurd (omega (arith, e))) (λ e. absurd (omega (arith, e)))
      (λ e. absurd (omega (arith, e))) (λ e. absurd (omega (arith, e)))
      (λ e. absurd (omega (arith, e))) 2

-- Where the writing end is 1 already, the child has no stdout.
no_stdout : child_table system (capture_actions 0 1 3 4) before 1 ≡ none
unfolding child_table capture_actions
no_stdout = refl

closed_at_exec : child_table system (capture_actions 3 4 5 6) before 7 ≡ none
unfolding child_table capture_actions
closed_at_exec = refl

all_null : child_table system null_actions before 1 ≡ opened (some dev_null)
unfolding child_table null_actions
all_null = refl
