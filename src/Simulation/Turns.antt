-- ===== src/Simulation/Turns.antt =====
-- src/executor.rs: whole runs of `run_current_context`. The main loop takes its steps, and in between,
-- above all inside a poll, code of the user calls the executor, with `stop_node` and the other functions
-- over the whole context run to their ends.
mod Examples
pub mod Running
use refault.Prelude.{ℕ, ◌≡◌, Bool, List, Option, none, Result, ok}
use refault.Executor.Machine.{Machine, Step, Call, initial}
use refault.Executor.Turns.{IsMain}
use refault.Executor.Stopping.Actions.{IsBasic}
use refault.Simulators.{SimCxl}
use refault.Simulation.{Cx}
use refault.Simulation.Stopping.{abort_task, stop_node, start_node, stop_simulation}

module _ {S F H : Type 0} where
  -- The executor of a context, with the task that the main loop is polling.
  abbrev pub machine : Option ℕ → SimCxl S (Cx F H) → Machine F
  machine current cx = record { current = current; executor = cx.rest.executor }

module _ {S F H : Type 0} (debug : Bool)
    (drop_future : F → SimCxl S (Cx F H) → Result (SimCxl S (Cx F H)))
    (on_stop on_start : S → SimCxl S (Cx F H) → Result (S × SimCxl S (Cx F H)))
    (iterate : List ℕ → List ℕ) where
  -- What code of the user does with the context while the main loop waits for it.
  pub data Deed (cx cx' : SimCxl S (Cx F H)) : Type 0 where
    -- a call of the executor; whatever else it does to the simulators, the handler and the scope
    calls : (c : Call debug cx.rest.executor cx'.rest.executor) → IsBasic c → Deed cx cx'
    -- anything that leaves the executor alone
    others : cx'.rest.executor ≡ cx.rest.executor → Deed cx cx'
    aborts : (id : ℕ) → abort_task drop_future id cx ≡ ok cx' → Deed cx cx'
    stops_node :
        (node : ℕ) (is_final : Bool)
        → stop_node drop_future on_stop on_start iterate node is_final cx ≡ ok cx'
        → Deed cx cx'
    starts_node :
        (node : ℕ) → start_node drop_future on_stop on_start iterate node cx ≡ ok cx' → Deed cx cx'
    stops_simulation :
        stop_simulation drop_future on_stop on_start iterate cx ≡ ok cx' → Deed cx cx'

  pub data Turn (cur : Option ℕ) (cx : SimCxl S (Cx F H)) (cur' : Option ℕ)
      (cx' : SimCxl S (Cx F H)) : Type 0 where
    main : (st : Step debug (machine cur cx) (machine cur' cx')) → IsMain st → Turn cur cx cur' cx'
    user : Deed cx cx' → cur' ≡ cur → Turn cur cx cur' cx'

  pub data Run : Option ℕ → SimCxl S (Cx F H) → Type 0 where
    start : (cx : SimCxl S (Cx F H)) → machine none cx ≡ initial → Run none cx
    next :
        {cur cur' : Option ℕ} {cx cx' : SimCxl S (Cx F H)}
        → Run cur cx
        → Turn cur cx cur' cx'
        → Run cur' cx'
