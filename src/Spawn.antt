-- ===== src/Spawn.antt =====
-- The descriptors that `kod_run_process` and `kod_spawn` of stdlib/runtime.c give to a child, as the
-- file actions of `posix_spawnp`.
pub mod Child
mod Tests
use kodlang.Base.{ℕ, Bytes, List, [], ◌∷◌, Option, Bool, true, false, codes}

-- `posix_spawn_file_actions_addclose`, `_adddup2` and `_addopen`, the last with `O_WRONLY` or
-- `O_RDONLY`.
pub data Action : Type 0 where
  add_close : ℕ → Action
  add_dup2 : ℕ → ℕ → Action
  add_open : ℕ → Bytes → Bool → Action

-- The actions of `kod_run_process`, for the reading and the writing ends of its pipes.
unfoldable pub capture_actions : (out_reading out_writing err_reading err_writing : ℕ) → List Action
capture_actions out_reading out_writing err_reading err_writing =
    add_close out_reading
    ∷ add_dup2 out_writing 1
    ∷ add_close out_writing
    ∷ add_close err_reading
    ∷ add_dup2 err_writing 2
    ∷ add_close err_writing
    ∷ []

abbrev pub dev_null : Bytes
dev_null = codes "/dev/null"

-- The actions of `kod_spawn`.
unfoldable pub null_actions : List Action
null_actions = add_open 0 dev_null false ∷ add_open 1 dev_null true ∷ add_open 2 dev_null true ∷ []

-- What a descriptor stands for, with its close-on-exec flag.
pub record Entry (F : Type 0) : Type 0 where
  pub file : F
  pub cloexec : Bool

abbrev pub Table : Type 0 → Type 0
Table F = ℕ → Option (Entry F)

-- What the system does for a file action, and for the `exec` behind the last one.
pub record System (F : Type 0) : Type 0 where
  pub perform : Action → Table F → Table F
  pub exec : Table F → Table F

-- The descriptors that the child's program starts with.
unfoldable pub child_table : {F : Type 0} → System F → List Action → Table F → Table F
child_table system [] table = system.exec table
child_table system (a ∷ actions) table = child_table system actions (system.perform a table)
