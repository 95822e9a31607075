-- ===== src/RunSimulation.antt =====
-- `SimBuilder::run_simulation` of src/sim_builder.rs: a simulation from its thread's start to its end, with
-- `ContextInstallGuard` around the main loop.
mod Examples
pub mod Returning
use refault.Prelude.{
  ℕ, Bool, true, false, List, [], Option, some, none, Result, ok, panic, unwrap_none, ◌>>=◌,
}
use refault.Events.{EventHandler}
use refault.Executor.Polling.{Poll}
use refault.Simulators.{SimCxl}
use refault.Simulation.{Cx}
use refault.Context.{SimCxu, SimCx, SimulationEnd, new_thread, install, destroy}
use refault.Time.Queue.{PriorityQueue}
use refault.Time.{new_scheduler}
use refault.MainLoop.{World, run_current_context}

-- The world of a simulation: the rest of it is the simulators, and `U`, the state of the user.
abbrev pub Simulated : (S F H Q U : Type 0) → Type 0
Simulated S F H Q U = World F H Q (SimCxl S U)

abbrev pub context_of : {S F H Q U : Type 0} → Simulated S F H Q U → SimCxl S (Cx F H)
context_of w = record {
  simulators_by_type = w.rest.simulators_by_type;
  simulators = w.rest.simulators;
  rest = record {
    executor = w.executor;
    event_handler = w.event_handler;
    current_node = w.current_node;
  };
}

-- The thread locals for a world.
abbrev pub leave : {S F H Q U : Type 0} → SimCx S F H → Simulated S F H Q U → SimCx S F H
leave cx w = record cx {
  context = some (context_of w);
  once_cell = some (record { current_node = w.current_node; time = w.time });
}

module _ {S F H Q U : Type 0} (pq : PriorityQueue Q) where
  -- What the thread locals of an installed simulation hold, with a new scheduler, whose `Instant::now()`
  -- src/interception.rs answers with the simulated time.
  unfoldable pub enter : U → SimCx S F H → Result (Simulated S F H Q U)
  unfolding new_scheduler
  enter u cx = elim cx.once_cell [
    | none ↦ panic unwrap_none
    | some cxu ↦ elim cx.context [
      | none ↦ panic unwrap_none
      | some cxl ↦ ok (record {
        executor = cxl.rest.executor;
        event_handler = cxl.rest.event_handler;
        time_scheduler = new_scheduler pq cxu.time;
        time = cxu.time;
        current_node = cxu.current_node;
        context_borrowed = false;
        rest = record {
          simulators_by_type = cxl.simulators_by_type;
          simulators = cxl.simulators;
          rest = u;
        };
      })
    ]
  ]

  module _ (debug : Bool) (handler : EventHandler H)
      (drop_cancelled : F → SimCxl S (Cx F H) → Result (SimCxl S (Cx F H)))
      (on_stop on_start : S → SimCxl S (Cx F H) → Result (S × SimCxl S (Cx F H)))
      (iterate : List ℕ → List ℕ)
      (drop_simulator : S → SimCxl S (Cx F H) → Result (SimCxl S (Cx F H)))
      (poll : ℕ → F → Simulated S F H Q U → Result (Poll F × Simulated S F H Q U))
      (drop_future : F → Simulated S F H Q U → Result (Simulated S F H Q U))
      (init_fn : Simulated S F H Q U → Result (Simulated S F H Q U)) where
    -- `context_guard.destroy(true).unwrap()`, then the guard's destructor.
    destroy_twice : SimCx S F H → Result SimulationEnd
    unfolding destroy
    destroy_twice cx = do
      (out, cx1) ←
          destroy handler drop_cancelled on_stop on_start iterate drop_simulator debug false true cx
      elim out [
        | none ↦ panic unwrap_none
        | some end ↦ do
          (again, cx2) ←
              destroy handler drop_cancelled on_stop on_start iterate drop_simulator debug false
                false cx1
          ok end
      ]

    -- The closure of the thread; a panic in it is that of `run_simulation`.
    unfoldable pub run_simulation : (fuel : ℕ) → H → (start_time : ℕ) → U → Result SimulationEnd
    unfolding install enter run_current_context destroy_twice
    run_simulation fuel h start_time u = do
      cx ← install h start_time new_thread
      w ← enter u cx
      w1 ← init_fn w
      w2 ← run_current_context debug pq handler poll drop_future fuel w1
      destroy_twice (leave cx w2)
