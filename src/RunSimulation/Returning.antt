-- ===== src/RunSimulation/Returning.antt =====
-- A simulation returns, for code of the user that does.
use refault.Prelude.{
  ℕ, ◌≤◌, ◌≡◌, refl, Bool, true, false, List, [], contains, some, none, Result, Returns, ok, arith,
  ◌∙◌,
}
use refault.Events.{EventHandler, Event}
use refault.Executor.State.{new_executor}
use refault.Executor.Invariant.{Inv, new_executor-Inv}
use refault.Executor.Polling.{Poll}
use refault.Executor.Stopping.Actions.{Acts}
use refault.Simulators.{SimCxl}
use refault.Simulation.{Cx}
use refault.Context.{SimCx, SimulationEnd, new_thread, install, destroy_lem}
use refault.Context.Closing.{destroy-Returns}
use refault.Simulation.Stopping.Slots.{AllThere, SameSlots}
use refault.Time.Queue.{PriorityQueue, QueueLaws}
use refault.Time.{new_scheduler}
use refault.Time.Sleeping.{new_scheduler-TInv}
use refault.MainLoop.{run_current_context}
use refault.MainLoop.Program.{PollsWell, DropsWell}
use refault.MainLoop.UserCode.{UserActs, UserActs-clock}
use refault.MainLoop.Wakers.{Good, UserActs-Good}
use refault.MainLoop.Idle.{IsIdle}
use refault.MainLoop.Ending.{run_current_context-ends}
use refault.RunSimulation.{Simulated, context_of, leave, enter, destroy_twice, run_simulation}

-- A context just installed.
abbrev new_cx : {S F H : Type 0} → H → ℕ → SimCx S F H
new_cx h start_time = record {
  context = some (record {
    simulators_by_type = λ _. none;
    simulators = [];
    rest = record { executor = new_executor; event_handler = h; current_node = 0 };
  });
  queue = true;
  once_cell = some (record { current_node = 0; time = start_time });
}

module _ {S F H Q U : Type 0} (pq : PriorityQueue Q) where
  -- The world in which `init_fn` is called.
  abbrev pub start_world : H → ℕ → U → Simulated S F H Q U
  start_world h start_time u = record {
    executor = new_executor;
    event_handler = h;
    time_scheduler = new_scheduler pq start_time;
    time = start_time;
    current_node = 0;
    context_borrowed = false;
    rest = record { simulators_by_type = λ _. none; simulators = []; rest = u };
  }

  install-enter :
      (h : H) (start_time : ℕ) (u : U)
      → (install h start_time new_thread ≡ ok (new_cx {S = S} {F = F} h start_time))
        × (enter pq u (new_cx h start_time) ≡ ok (start_world h start_time u))
  unfolding install enter
  install-enter h start_time u = (refl, refl)

  pub start_world-Good :
      (debug : Bool) (laws : QueueLaws pq) (h : H) (start_time : ℕ) (u : U)
      → Good debug pq laws none (start_world h start_time u)
  unfolding new_scheduler
  start_world-Good debug laws h start_time u = record {
    executes_well = new_executor-Inv;
    timed = new_scheduler-TInv pq laws start_time;
    wakers = λ k. tt;
  }

  module _ (debug : Bool) (laws : QueueLaws pq) (handler : EventHandler H)
      (drop_cancelled : F → SimCxl S (Cx F H) → Result (SimCxl S (Cx F H)))
      (on_stop on_start : S → SimCxl S (Cx F H) → Result (S × SimCxl S (Cx F H)))
      (iterate : List ℕ → List ℕ)
      (drop_simulator : S → SimCxl S (Cx F H) → Result (SimCxl S (Cx F H)))
      (poll : ℕ → F → Simulated S F H Q U → Result (Poll F × Simulated S F H Q U))
      (drop_future : F → Simulated S F H Q U → Result (Simulated S F H Q U))
      (init_fn : Simulated S F H Q U → Result (Simulated S F H Q U))
      (drop_acts : (future : F) (cx cx' : SimCxl S (Cx F H))
        → drop_cancelled future cx ≡ ok cx'
        → Acts F debug cx.rest.executor cx'.rest.executor)
      (stop_acts : (s s' : S) (cx cx' : SimCxl S (Cx F H))
        → on_stop s cx ≡ ok (s', cx')
        → Acts F debug cx.rest.executor cx'.rest.executor)
      (iterate_contains : (xs : List ℕ) (i : ℕ) → contains (iterate xs) i ≡ contains xs i)
      (cancels : (future : F) (cx : SimCxl S (Cx F H))
        → Inv none cx.rest.executor
        → (cx' : SimCxl S (Cx F H)) × (drop_cancelled future cx ≡ ok cx')
          × SameSlots cx.simulators cx'.simulators)
      (stops : (s : S) (cx : SimCxl S (Cx F H))
        → Inv none cx.rest.executor
        → (s' : S) × (cx' : SimCxl S (Cx F H)) × (on_stop s cx ≡ ok (s', cx'))
          × SameSlots cx.simulators cx'.simulators)
      (destructs : (s : S) (cx : SimCxl S (Cx F H))
        → (cx' : SimCxl S (Cx F H)) × (drop_simulator s cx ≡ ok cx')
          × SameSlots cx.simulators cx'.simulators)
      (finalizes : (h : H) → Returns (handler.finalize h)) where
    closes :
        (cx : SimCx S F H) (w : Simulated S F H Q U)
        → IsIdle debug pq laws handler w
        → Good debug pq laws none w
        → w.current_node ≡ 0
        → AllThere w.rest.simulators
        → (end : SimulationEnd) × (destroy_twice pq debug handler drop_cancelled on_stop on_start
              iterate drop_simulator poll drop_future init_fn
              (leave cx w)
            ≡ ok end)
          × (end.time_elapsed ≡ w.time)
    unfolding destroy_twice
    closes cx w (idle, _) g at_first there =
        let (end, cx1, first, clock) =
          destroy-Returns handler drop_cancelled on_stop on_start iterate drop_simulator drop_acts
            stop_acts iterate_contains cancels stops destructs finalizes (leave cx w)
            (record { current_node = w.current_node; time = w.time }) (context_of w) refl refl
            at_first idle g.executes_well there in
        let (_, again, _) =
          destroy_lem handler drop_cancelled on_stop on_start iterate drop_simulator debug false
            true (leave cx w) (record { current_node = w.current_node; time = w.time }) refl
            first in
        (end, ground arith, clock)

    runs :
        (h : H) (start_time : ℕ) (u : U) (w1 w2 : Simulated S F H Q U) (fuel : ℕ)
        → init_fn (start_world h start_time u) ≡ ok w1
        → run_current_context debug pq handler poll drop_future fuel w1 ≡ ok w2
        → run_simulation pq debug handler drop_cancelled on_stop on_start iterate drop_simulator
            poll drop_future init_fn fuel h start_time u
          ≡ destroy_twice pq debug handler drop_cancelled on_stop on_start iterate drop_simulator
              poll drop_future init_fn
              (leave (new_cx h start_time) w2)
    unfolding run_simulation
    runs h start_time u w1 w2 fuel starts ended =
        let (installed, entered) = install-enter h start_time u in ground arith

    module _ (budget : SimCxl S U → ℕ) (Fine : SimCxl S U → Type 0)
        (fine_slots : (rest : SimCxl S U) → Fine rest → AllThere rest.simulators)
        (accepts : (h : H) (e : Event) → Returns (handler.handle_event h e))
        (polls : PollsWell debug pq laws budget Fine poll)
        (drops : DropsWell debug pq laws budget Fine drop_future) where
      -- A simulation returns, with enough fuel, and not before its start time, so that the time
      -- elapsed is not negative: no assertion of its main loop, of `destroy` or of the notification of
      -- the simulators fails. The code of the user has to return and to keep to the interface: each poll
      -- and destructor that does not leave the executor and the scheduler alone spends some of a budget,
      -- a destructor that the main loop runs does without the context, which is borrowed then, no
      -- simulator is in use between them, and neither destructors nor callbacks at the end add or remove
      -- a simulator. The queue obeys its documentation.
      pub run_simulation-Returns :
          (h : H) (start_time : ℕ) (u : U)
          → (w1 : Simulated S F H Q U) × (init_fn (start_world h start_time u) ≡ ok w1)
            × UserActs debug pq (start_world h start_time u) w1
            × Fine w1.rest
          → (fuel : ℕ) × (end : SimulationEnd) × (run_simulation pq debug handler drop_cancelled
                on_stop on_start iterate drop_simulator poll drop_future init_fn fuel h start_time u
              ≡ ok end)
            × (start_time ≤ end.time_elapsed)
      run_simulation-Returns h start_time u (w1, starts, acts, fine) =
          let (t1, n1, b1) = UserActs-clock debug pq (start_world h start_time u) w1 acts in
          let g1 =
            UserActs-Good debug pq laws (start_world h start_time u) w1
              (start_world-Good debug laws h start_time u) acts in
          let (fuel, w2, ended, idle, (g2, fine2, t2, n2, b2)) =
            run_current_context-ends debug pq laws handler budget Fine accepts poll drop_future
              polls drops w1 g1 fine b1 in
          let (end, closed, clock) =
            closes (new_cx h start_time) w2 idle g2 (n2 ∙ n1) (fine_slots w2.rest fine2) in
          (fuel, end, runs h start_time u w1 w2 fuel starts ended ∙ closed, ground arith)
