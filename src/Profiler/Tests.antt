-- ===== src/Profiler/Tests.antt =====
-- The profiler on a small stack, and the theorem at it.
use kodlang.Base.{ℕ, ◌≡◌, refl, [], ◌∷◌, ok, length, ◌==◌, if◌then◌else◌}
use kodlang.Base.Int.{pos}
use kodlang.Profiler.{
  Profile, initial, Signal, sample_all, _profiling_start, _profiling_n_samples,
  _profiling_sample_depth, _profiling_sample_frame,
}
use kodlang.Profiler.Report.{sample_at, entry_at, sample_all_report}
use kodlang.Profiler.Samples.{sample, samples}
use kodlang.Profiler.Walk.{chain}

-- Frames at 100 and 200, and one at 50 that the second points down to.
abbrev stack : ℕ → ℕ
stack a =
    if a == 100
    then 200
    else if a == 108
    then 7
    else if a == 200
    then 50
    else if a == 208
    then 8
    else 9

abbrev tick : Signal
tick = record { word = stack; pc = 6; fp = 100 }

tick-sample : sample tick ≡ 6 ∷ 7 ∷ 8 ∷ []
unfolding chain
tick-sample = refl

sample_all_report_example :
    (s₀ s : Profile) × (sample_all (tick ∷ []) initial ≡ ok s₀)
    × (sample_all (tick ∷ tick ∷ []) (_profiling_start s₀) ≡ ok s)
    × (_profiling_n_samples s ≡ length (samples (tick ∷ tick ∷ [])))
    × (_profiling_sample_depth (pos 1) s
        ≡ ok (length (sample_at (samples (tick ∷ tick ∷ [])) (pos 1))))
    × (_profiling_sample_frame (pos 1) (pos 2) s
        ≡ ok (entry_at (sample_at (samples (tick ∷ tick ∷ [])) (pos 1)) (pos 2)))
sample_all_report_example = sample_all_report (tick ∷ []) (tick ∷ tick ∷ []) (pos 1) (pos 2)
