-- ===== src/SimBuilder.antt =====
-- src/sim_builder.rs: `SimBuilder::run`, which repeats the simulation under a determinism check.
mod Examples
pub mod Checked
use refault.Prelude.{
  ℕ, zero, suc, ◌-◌, ◌*◌, ◌^◌, List, [], Option, none, some, Result, ok, panic, overflow,
  assert_failed, unwrap_none, assert, ◌>>=◌, ◌>>◌, leb, ltb,
}
use refault.Events.{
  Event, EventHandler, Output, unit, events, hash, noop, recording, new_validation, validating,
  AHasher, hash_recording, hash_validating,
}
use refault.Events.Replay.{run}

-- `none` of the source is `unchecked`.
pub data DeterminismCheck : Type 0 where
  unchecked : DeterminismCheck
  full hashed : (iterations : ℕ) → DeterminismCheck

pub record SimBuilder : Type 0 where
  pub seed : ℕ
  pub simulation_start_time : ℕ
  pub determinism_check : DeterminismCheck

-- `SimBuilder::default`, in nanoseconds.
unfoldable pub new_builder : SimBuilder
new_builder = record {
  seed = 0;
  simulation_start_time = 1648339195 * 10 ^ 9;
  determinism_check = full 2;
}

unfoldable pub with_seed : SimBuilder → ℕ → SimBuilder
with_seed b seed = record b { seed = seed }

-- The new start is read against the epoch; an earlier one makes `duration_since` fail.
unfoldable pub with_simulation_start_time : (unix_epoch : ℕ) → SimBuilder → ℕ → Result SimBuilder
with_simulation_start_time unix_epoch b start = do
  assert (leb unix_epoch start) unwrap_none
  ok (record b { simulation_start_time = start - unix_epoch })

unfoldable pub with_determinism_check : SimBuilder → DeterminismCheck → SimBuilder
with_determinism_check b check = record b { determinism_check = check }

pub record SimulationOutput (T : Type 0) : Type 0 where
  pub time_elapsed : ℕ
  pub output : Option T
  pub events : Output

-- `SimulationOutput::unwrap`
unfoldable pub unwrap : {T : Type 0} → SimulationOutput T → Result T
unwrap out = elim out.output [ none ↦ panic unwrap_none | some value ↦ ok value ]

-- What one call of `run_simulation` does: the events it reports, the simulated time at its end, and
-- the output of the root future. A program that is not deterministic has different ones.
pub record Trace (T : Type 0) : Type 0 where
  pub reported : List Event
  pub time : ℕ
  pub output : Option T

module _ {T S : Type 0} (hasher : AHasher S) (simulation_start_time : ℕ)
    (traces : ℕ → Trace T) where
  -- The closure `run_with_events`, in its call number `i`.
  unfoldable pub run_with_events :
      {H : Type 0} → EventHandler H → H → ℕ → Result (SimulationOutput T)
  run_with_events handler h i = do
    out ← run handler h (traces i).reported
    assert (leb simulation_start_time (traces i).time) overflow
    ok (record {
      time_elapsed = (traces i).time - simulation_start_time;
      output = (traces i).output;
      events = out;
    })

  -- `for _ in 1..iterations`, from call `i` on.
  unfoldable pub repeat : {H : Type 0} → EventHandler H → H → ℕ → ℕ → Result (Unit {0})
  unfolding run_with_events
  repeat handler h i zero = ok tt
  repeat handler h i (suc rounds) = do
    ignored ← run_with_events handler h i
    repeat handler h (suc i) rounds

  check_against : Output → SimulationOutput T → ℕ → Result (SimulationOutput T)
  unfolding repeat
  check_against (events recorded) out iterations = do
    repeat validating (new_validation recorded) 1 (iterations - 1)
    ok (record out { events = unit })
  check_against _ out iterations = panic unwrap_none

  check_hash_against : Output → SimulationOutput T → ℕ → Result (SimulationOutput T)
  unfolding repeat
  check_hash_against (hash recorded) out iterations = do
    repeat (hash_validating hasher recorded) hasher.new 1 (iterations - 1)
    ok (record out { events = unit })
  check_hash_against _ out iterations = panic unwrap_none

  -- `SimBuilder::run`
  unfoldable pub run_checked : DeterminismCheck → Result (SimulationOutput T)
  unfolding check_against check_hash_against
  run_checked unchecked = run_with_events noop tt 0
  run_checked (full iterations) = do
    assert (ltb 1 iterations) assert_failed
    out ← run_with_events recording [] 0
    check_against out.events out iterations
  run_checked (hashed iterations) = do
    assert (ltb 1 iterations) assert_failed
    out ← run_with_events (hash_recording hasher) hasher.new 0
    check_hash_against out.events out iterations
