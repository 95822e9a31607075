-- ===== src/SimBuilder/Examples.antt =====
-- Three runs of a deterministic program.
use refault.Prelude.{
  ℕ, suc, ◌+◌, ◌≤◌, ◌<◌, ◌≡◌, ◌≢◌, ◌⊎◌, [], ◌∷◌, some, ok, panic, diverged, arith,
}
use refault.Events.{AHasher, task_spawned, time_advanced, unit}
use refault.SimBuilder.{Trace, full, run_checked}
use refault.SimBuilder.Checked.{run_checked_lem}

abbrev counting : AHasher ℕ
counting = record { new = 0; write = λ s _. s + 1; finish = λ s. s }

abbrev trace : ℕ → Trace ℕ
trace i = record { reported = task_spawned ∷ time_advanced 5 ∷ []; time = 105; output = some 1 }

on_time : (i : ℕ) → 100 ≤ (trace i).time
on_time i = ground arith

run_checked_lem_example :
    ((run_checked counting 100 trace (full 3)
        ≡ ok (record { time_elapsed = 5; output = some 1; events = unit }))
      × ((j : ℕ) → (suc j) < 3 → (trace (suc j)).reported ≡ (trace 0).reported))
    ⊎ ((run_checked counting 100 trace (full 3) ≡ panic diverged)
        × ((j : ℕ) × ((suc j) < 3) × ((trace (suc j)).reported ≢ (trace 0).reported)))
run_checked_lem_example = run_checked_lem counting 100 trace on_time 3 (ground arith)
