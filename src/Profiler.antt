-- ===== src/Profiler.antt =====
-- The sampling profiler of stdlib/runtime.c: the signal handler's walk of the call stack, its fixed
-- buffers, and the accessors that the report reads them with.
pub mod Walk
pub mod Samples
pub mod Report
mod Tests
use kodlang.Base.{
  ℕ, zero, suc, ◌+◌, ◌*◌, List, [], ◌∷◌, Run, ok, ◌>>=◌, load, store, replicate, ltb, leb, ◌==◌,
  ◌||◌, if◌then◌else◌,
}
use kodlang.Base.Int.{ℤ, pos, negsuc, ltb_ℤ}

abbrev pub max_frames : ℕ
max_frames = 32

abbrev pub max_samples : ℕ
max_samples = 4096

-- `kod_prof_frames`, `kod_prof_depths` and `kod_prof_count`.
pub record Profile : Type 0 where
  pub frames : List ℕ
  pub depths : List ℕ
  pub count : ℕ

-- Static memory starts as zeros.
unfoldable pub initial : Profile
initial = record {
  frames = replicate (max_samples * max_frames) 0;
  depths = replicate max_samples 0;
  count = 0;
}

-- The words of the interrupted thread's memory, by address; an address is a number, 0 is NULL.
module _ (word : ℕ → ℕ) where
  -- The handler's loop, with `room` for `KOD_PROF_MAX_FRAMES - depth` more entries in the row that
  -- starts at `row`. Returns the final depth.
  unfoldable pub walk : (room row depth fp : ℕ) → List ℕ → Run (ℕ × List ℕ)
  walk zero row depth fp frames = ok (depth, frames)
  walk (suc room) row depth fp frames =
      let lr = word (fp + 8) in
      let next = word fp in
      let further = store frames (row + depth) lr >>= (λ written.
        if next == 0 || leb next fp
        then ok (depth + 1, written)
        else walk room row (depth + 1) next written) in
      if fp == 0 || lr == 0 then ok (depth, frames) else further

  -- What follows the loop.
  unfoldable pub record_depth : Profile → ℕ × List ℕ → Run Profile
  record_depth s (depth, frames) = do
    depths ← store s.depths s.count depth
    ok (record { frames = frames; depths = depths; count = s.count + 1 })

  unfoldable pub kod_prof_handler : (pc fp : ℕ) → Profile → Run Profile
  kod_prof_handler pc fp s = if leb max_samples s.count then ok s else (do
    let row = s.count * max_frames
    first ← store s.frames row pc
    walked ← walk 31 row 1 fp first
    record_depth s walked)

-- A signal: the memory, the program counter and the frame pointer of the interrupted thread.
pub record Signal : Type 0 where
  pub word : ℕ → ℕ
  pub pc : ℕ
  pub fp : ℕ

-- The handler for some signals, the first one first.
unfoldable pub sample_all : List Signal → Profile → Run Profile
sample_all [] s = ok s
sample_all (g ∷ gs) s = do sampled ← kod_prof_handler g.word g.pc g.fp s; sample_all gs sampled

unfoldable pub _profiling_start : Profile → Profile
_profiling_start s = record s { count = 0 }

unfoldable pub _profiling_n_samples : Profile → ℕ
_profiling_n_samples s = s.count

-- A number that is not negative; the tests before have excluded the others.
unfoldable pub index : ℤ → ℕ
index (pos n) = n
index (negsuc n) = 0

unfoldable pub _profiling_sample_depth : ℤ → Profile → Run ℕ
_profiling_sample_depth idx s =
    if ltb_ℤ idx (pos 0) || leb s.count (index idx) then ok 0 else load s.depths (index idx)

unfoldable pub _profiling_sample_frame : ℤ → ℤ → Profile → Run ℕ
_profiling_sample_frame sample_idx frame_idx s =
    if ltb_ℤ sample_idx (pos 0) || leb s.count (index sample_idx)
    then ok 0
    else load s.depths (index sample_idx) >>= (λ depth.
      if ltb_ℤ frame_idx (pos 0) || leb depth (index frame_idx)
      then ok 0
      else load s.frames (index sample_idx * max_frames + index frame_idx))
