-- ===== src/Simulation/Turns/Examples.antt =====
-- A run: a task is spawned, its node is stopped and started again, and another task is spawned on it.
use refault.Prelude.{ℕ, suc, ◌≡◌, refl, true, false, List, [], ◌∷◌, some, none, Result, ok, panic}
use refault.Executor.State.{Executor, TaskShared, ready, new_executor}
use refault.Executor.Tasks.{spawn, abort_local, remove_task_entry}
use refault.Executor.Nodes.{mark_stopped, mark_started}
use refault.Executor.Polling.{Popped, run, removed, pop_one}
use refault.Executor.Invariant.{Inv}
use refault.Executor.Machine.{pop_front, spawns, removes}
use refault.Executor.Stopping.Actions.{Acts, rest}
use refault.Executor.Stopping.Quiet.{Quiet, is_on}
use refault.Simulators.{SimCxl, for_all_simulators, visit_from}
use refault.Simulation.{Cx, node_scope}
use refault.Simulation.Stopping.{
  with_executor, abort_all, abort_task, drop_task, stop_inside, stop_node, start_inside, start_node,
}
use refault.Simulation.Turns.{calls, stops_node, starts_node, main, user, Run}
use refault.Simulation.Turns.Running.{Run-Quiet, Run-polled}

abbrev Context : Type 0
Context = SimCxl ℕ (Cx ℕ (List ℕ))

abbrev drop_future : ℕ → Context → Result Context
drop_future future cx = ok cx

abbrev count : ℕ → Context → Result (ℕ × Context)
count s cx = ok (suc s, cx)

abbrev iterate : List ℕ → List ℕ
iterate xs = xs

drop-Acts :
    (future : ℕ) (cx cx' : Context)
    → drop_future future cx ≡ ok cx'
    → Acts ℕ true cx.rest.executor cx'.rest.executor
drop-Acts future cx cx' e = let same : cx ≡ cx' = cc in rw (← same) rest

count-Acts :
    (s s' : ℕ) (cx cx' : Context)
    → count s cx ≡ ok (s', cx')
    → Acts ℕ true cx.rest.executor cx'.rest.executor
count-Acts s s' cx cx' e = let same : cx ≡ cx' = cc in rw (← same) rest

context : Context
context = record {
  simulators_by_type = λ _. none;
  simulators = some 3 ∷ [];
  rest = record { executor = new_executor; event_handler = []; current_node = 0 };
}

or_context : Result Context → Context
or_context (ok cx) = cx
or_context (panic why) = context

spawned : Context → ℕ → Context
unfolding spawn
spawned cx future = elim (spawn true cx.rest.executor 0 future) [
  | ok (id, ex) ↦ with_executor cx ex
  | panic why ↦ cx
]

popped : Executor ℕ → Result (Popped ℕ) → Executor ℕ
popped ex (ok (run p future sh ex')) = ex'
popped ex (ok (removed ex')) = ex'
popped ex (panic why) = ex

one : Context
unfolding context spawned new_executor
one = spawned context 7

stopped : Context
unfolding one or_context stop_node stop_inside node_scope mark_stopped abort_all abort_task
    abort_local drop_task for_all_simulators visit_from
stopped = or_context (stop_node drop_future count count iterate 0 false one)

started : Context
unfolding stopped or_context start_node start_inside node_scope mark_started for_all_simulators
    visit_from
started = or_context (start_node drop_future count count iterate 0 stopped)

two : Context
unfolding started spawned
two = spawned started 8

cleared : Context
unfolding two popped pop_one remove_task_entry
cleared =
    with_executor two
      (popped two.rest.executor (pop_one true (pop_front two.rest.executor (2 ∷ [])) 1))

whole_run : Run true drop_future count count iterate none cleared
unfolding cleared
whole_run =
    Run.next {cx = two}
      (Run.next {cx = started}
        (Run.next {cx = stopped}
          (Run.next {cx = one}
            (Run.next {cx = context} (Run.start context refl)
              (user (calls (spawns 0 7 1 refl) tt) refl))
            (user (stops_node 0 false refl) refl))
          (user (starts_node 0 refl) refl))
        (user (calls (spawns 0 8 2 refl) tt) refl))
      (main (removes 1 (2 ∷ []) cleared.rest.executor refl refl refl refl refl) tt)

Run-Quiet_example : Inv none cleared.rest.executor × Quiet (λ _. false) cleared.rest.executor
Run-Quiet_example =
    Run-Quiet drop_future count count iterate drop-Acts count-Acts count-Acts (λ xs i. refl)
      whole_run

second_task : TaskShared
second_task = record { state = ready; id = 2; node = 0 }

second_queued : cleared.rest.executor.ready_queue ≡ 2 ∷ []
unfolding cleared
second_queued = refl

after_take : Executor ℕ
unfolding cleared
after_take = popped cleared.rest.executor (pop_one true (pop_front cleared.rest.executor []) 2)

second_popped :
    pop_one true (pop_front cleared.rest.executor []) 2 ≡ ok (run 2 8 second_task after_take)
unfolding second_task after_take
second_popped = refl

Run-polled_example : is_on cleared.rest.executor.nodes 0 ≡ true
unfolding second_task
Run-polled_example =
    Run-polled drop_future count count iterate drop-Acts count-Acts count-Acts (λ xs i. refl) 2 [] 2
      8 second_task after_take whole_run second_queued second_popped
