-- ===== src/SimBuilder/Checked.antt =====
-- What `SimBuilder::run` returns under the full determinism check.
use refault.Prelude.{
  ℕ, zero, suc, ◌+◌, ◌-◌, ◌≤◌, ◌<◌, ◌≡◌, ◌≢◌, ◌⊎◌, inl, inr, refl, true, List, Result, ok, panic,
  diverged, ◌>>=◌, arith, leb, ltb,
}
use refault.Events.{AHasher, Event, new_validation, validating, unit}
use refault.Events.Replay.{recording-run, replay_lem}
use refault.SimBuilder.{Trace, SimulationOutput, full, run_with_events, repeat, run_checked}

module _ {T S : Type 0} (hasher : AHasher S) (start : ℕ) (traces : ℕ → Trace T)
    (later : (i : ℕ) → start ≤ (traces i).time) where
  add_zero : (i : ℕ) → i + 0 ≡ i
  add_zero i = ground arith

  add_suc : (i j : ℕ) → i + suc j ≡ suc i + j
  add_suc i j = ground arith

  one_plus : (j : ℕ) → 1 + j ≡ suc j
  one_plus j = ground arith

  -- All of the calls from `i` on report the recorded events, or one of them does not.
  abbrev Repeated : List Event → ℕ → ℕ → Result (Unit {0}) → Type 0
  Repeated recorded i rounds r =
      ((r ≡ ok tt) × ((j : ℕ) → j < rounds → (traces (i + j)).reported ≡ recorded))
      ⊎ ((r ≡ panic diverged) × ((j : ℕ) × (j < rounds) × ((traces (i + j)).reported ≢ recorded)))

  abbrev elapsed : ℕ → SimulationOutput T
  elapsed i = record {
    time_elapsed = (traces i).time - start;
    output = (traces i).output;
    events = unit;
  }

  on_time : (i : ℕ) → leb start (traces i).time ≡ true
  on_time i = ground (arith, later i)

  all_from :
      (recorded : List Event) (i rounds : ℕ)
      → (traces i).reported ≡ recorded
      → ((j : ℕ) → j < rounds → (traces (suc i + j)).reported ≡ recorded)
      → (j : ℕ) → j < suc rounds
      → (traces (i + j)).reported ≡ recorded
  all_from recorded i rounds first rest zero below = rw (add_zero i) first
  all_from recorded i rounds first rest (suc j) below = rw (add_suc i j) (rest j (ground arith))

  after_first :
      (recorded : List Event) (i rounds : ℕ) (r : Result (Unit {0}))
      → (traces i).reported ≡ recorded
      → Repeated recorded (suc i) rounds r
      → Repeated recorded i (suc rounds) r
  after_first recorded i rounds r first (inl (passes, rest)) =
      inl (passes, all_from recorded i rounds first rest)
  after_first recorded i rounds r first (inr (fails, (j, below, differs))) =
      inr (fails, (suc j, ground arith, rw (add_suc i j) differs))

  repeat-Repeated :
      (recorded : List Event) (i rounds : ℕ)
      → Repeated recorded i rounds
          (repeat hasher start traces validating (new_validation recorded) i rounds)
  unfolding repeat
  repeat-Repeated recorded i zero = inl (refl, λ j below. ground arith)
  repeat-Repeated recorded i (suc rounds) = elim (replay_lem recorded (traces i).reported) [
    | inl (same, replayed) ↦
        rw (repeat, replayed, on_time i)
          (after_first recorded i rounds
            (repeat hasher start traces validating (new_validation recorded) (suc i) rounds) same
            (repeat-Repeated recorded (suc i) rounds))
    | inr (differs, replayed) ↦
        rw (repeat, replayed) (inr (refl, (0, ground arith, rw (add_zero i) differs)))
  ]

  replays : ℕ → Result (Unit {0})
  replays iterations =
      repeat hasher start traces validating (new_validation (traces 0).reported) 1 (iterations - 1)

  checks :
      (iterations : ℕ)
      → ltb 1 iterations ≡ true
      → run_checked hasher start traces (full iterations)
        ≡ (do done ← replays iterations; ok (elapsed 0))
  unfolding run_checked run_with_events replays
  checks iterations several =
      rw (run_checked, several, recording-run (traces 0).reported, on_time 0) refl

  -- Under the full check with at least two iterations, where no run ends before the time it starts
  -- at: `run` returns the elapsed time and the output of its first run if all the other runs report
  -- the same events in the same order; and if one of them does not, it ends in the panic that reports
  -- divergence. There is no third outcome.
  pub run_checked_lem :
      (iterations : ℕ)
      → 2 ≤ iterations
      → ((run_checked hasher start traces (full iterations) ≡ ok (elapsed 0))
          × ((j : ℕ) → suc j < iterations → (traces (suc j)).reported ≡ (traces 0).reported))
        ⊎ ((run_checked hasher start traces (full iterations) ≡ panic diverged)
            × ((j : ℕ) × (suc j < iterations) × ((traces (suc j)).reported ≢ (traces 0).reported)))
  unfolding replays
  run_checked_lem iterations several =
      let equation = checks iterations (ground arith) in
      elim (repeat-Repeated (traces 0).reported 1 (iterations - 1)) [
        | inl (passes, same) ↦
            inl (rw (equation, passes) refl, λ j below. rw (← one_plus j) (same j (ground arith)))
        | inr (fails, (j, below, differs)) ↦
            inr (rw (equation, fails) refl, (j, ground arith, rw (← one_plus j) differs))
      ]
