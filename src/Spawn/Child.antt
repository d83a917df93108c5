-- ===== src/Spawn/Child.antt =====
-- What a child finds at its descriptors.
use kodlang.Base.{
  ℕ, ◌<◌, ◌≡◌, ◌≢◌, Bytes, Option, none, some, Bool, true, refl, false, ◌||◌, ◌==◌, if◌then◌else◌,
  arith,
}
use kodlang.Spawn.{
  add_close, add_dup2, add_open, capture_actions, null_actions, dev_null, Entry, System, Table,
  child_table,
}

-- What `exec` leaves of a descriptor.
abbrev pub kept : {F : Type 0} → Option (Entry F) → Option (Entry F)
kept none = none
kept (some e) = if e.cloexec then none else some e

abbrev pub opened : {F : Type 0} → Option F → Option (Entry F)
opened none = none
opened (some f) = some (record { file = f; cloexec = false })

abbrev pub without_flag : {F : Type 0} → Option (Entry F) → Option (Entry F)
without_flag none = none
without_flag (some e) = some (record e { cloexec = false })

-- An open file is kept once its flag is off.
kept-without_flag : {F : Type 0} (e : Option (Entry F)) → kept (without_flag e) ≡ without_flag e
kept-without_flag none = refl
kept-without_flag (some e) = refl

kept-opened : {F : Type 0} (f : Option F) → kept (opened f) ≡ opened f
kept-opened none = refl
kept-opened (some f) = refl

-- What POSIX documents of the file actions and of `exec`; `file` is what opening a path gives.
pub record Performs {F : Type 0} (file : Bytes → Bool → Option F) (system : System F) : Type 0 where
  pub close :
      (n k : ℕ) (t : Table F) → system.perform (add_close n) t k ≡ (if k == n then none else t k)
  pub dup2 :
      (a b k : ℕ) (t : Table F)
      → a ≢ b
      → system.perform (add_dup2 a b) t k ≡ (if k == b then without_flag (t a) else t k)
  pub open_file :
      (n k : ℕ) (path : Bytes) (writes : Bool) (t : Table F)
      → system.perform (add_open n path writes) t k
        ≡ (if k == n then opened (file path writes) else t k)
  pub exec : (k : ℕ) (t : Table F) → system.exec t k ≡ kept (t k)

module _ {F : Type 0} {file : Bytes → Bool → Option F} {system : System F}
    (p : Performs file system) where
  -- Where the four ends of the pipes are different and none is 0, 1 or 2, and the system does what
  -- POSIX documents of the file actions and of exec, the program that the child of kod_run_process
  -- starts finds the writing end of the first pipe at descriptor 1 and that of the second at
  -- descriptor 2. None of the four ends is open in it under its own number, and every other
  -- descriptor stands for what it did in the parent, or for nothing if it is close-on-exec there.
  pub capture_actions_lem :
      (out_reading out_writing err_reading err_writing : ℕ) (t : Table F)
      → 2 < out_reading
      → 2 < out_writing
      → 2 < err_reading
      → 2 < err_writing
      → out_reading ≢ out_writing
      → out_reading ≢ err_writing
      → err_reading ≢ out_writing
      → err_reading ≢ err_writing
      → out_writing ≢ err_writing
      → (k : ℕ)
      → child_table system (capture_actions out_reading out_writing err_reading err_writing) t k ≡ (
          if k == 1
          then without_flag (t out_writing)
          else if k == 2
          then without_flag (t err_writing)
          else if k == out_reading || k == out_writing || k == err_reading || k == err_writing
          then none
          else kept (t k))
  unfolding child_table capture_actions
  capture_actions_lem or ow er ew t a b c d e f g h i k =
      let t1 = system.perform (add_close or) t in
      let t2 = system.perform (add_dup2 ow 1) t1 in
      let t3 = system.perform (add_close ow) t2 in
      let t4 = system.perform (add_close er) t3 in
      let t5 = system.perform (add_dup2 ew 2) t4 in
      let t6 = system.perform (add_close ew) t5 in
      ground (
        arith,
        p.exec k t6,
        kept-without_flag (t ow),
        kept-without_flag (t ew),
        p.close ew k t5,
        p.dup2 ew 2 k t4 (λ z. absurd (omega (arith, z))),
        p.close er ew t3,
        p.close er k t3,
        p.close ow ew t2,
        p.close ow k t2,
        p.dup2 ow 1 ew t1 (λ z. absurd (omega (arith, z))),
        p.dup2 ow 1 k t1 (λ z. absurd (omega (arith, z))),
        p.close or ow t,
        p.close or ew t,
        p.close or k t,
      )

  null_actions_lem :
      (t : Table F) (k : ℕ)
      → child_table system null_actions t k ≡ (
          if k == 0
          then opened (file dev_null false)
          else if k == 1 || k == 2
          then opened (file dev_null true)
          else kept (t k))
  unfolding child_table null_actions
  null_actions_lem t k =
      let t1 = system.perform (add_open 0 dev_null false) t in
      let t2 = system.perform (add_open 1 dev_null true) t1 in
      let t3 = system.perform (add_open 2 dev_null true) t2 in
      ground (
        arith,
        p.exec k t3,
        kept-opened (file dev_null true),
        kept-opened (file dev_null false),
        p.open_file 2 k dev_null true t2,
        p.open_file 1 k dev_null true t1,
        p.open_file 0 k dev_null false t,
      )
