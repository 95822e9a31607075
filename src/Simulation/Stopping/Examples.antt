-- ===== src/Simulation/Stopping/Examples.antt =====
-- Stopping a node with one task and one simulator, which counts.
use refault.Prelude.{ℕ, suc, ◌≡◌, refl, true, false, List, [], ◌∷◌, some, none, Result, ok, panic}
use refault.Executor.State.{Executor, new_executor}
use refault.Executor.Tasks.{spawn, abort_local}
use refault.Executor.Nodes.{mark_stopped}
use refault.Executor.Invariant.{Inv, new_executor-Inv}
use refault.Executor.Invariant.Spawning.{spawn-Inv}
use refault.Executor.Stopping.Actions.{Acts, rest}
use refault.Executor.Stopping.Quiet.{Quiet, spawn-Quiet}
use refault.Executor.Stopping.Final.{AllOver}
use refault.Simulators.{SimCxl, for_all_simulators, visit_from, visit}
use refault.Simulation.{Cx, node_scope}
use refault.Simulation.Stopping.{abort_all, abort_task, drop_task, stop_node, stop_simulation}
use refault.Simulation.Stopping.Ending.{stop_node_lem, stop_simulation_lem}

abbrev Context : Type 0
Context = SimCxl ℕ (Cx ℕ (List ℕ))

abbrev drop_future : ℕ → Context → Result Context
drop_future future cx = ok cx

abbrev count : ℕ → Context → Result (ℕ × Context)
count s cx = ok (suc s, cx)

value : Executor ℕ → Result (ℕ × Executor ℕ) → Executor ℕ
value ex (ok (id, ex')) = ex'
value ex (panic why) = ex

one_task : Executor ℕ
unfolding spawn value new_executor
one_task = value new_executor (spawn true new_executor 0 7)

spawned : spawn true new_executor 0 7 ≡ ok (1, one_task)
unfolding one_task
spawned = refl

one_task-Inv : Inv none one_task
one_task-Inv = spawn-Inv true new_executor 0 7 new_executor-Inv spawned

new_executor-Quiet : Quiet (λ _. false) (new_executor {F = ℕ})
unfolding new_executor
new_executor-Quiet i = tt

one_task-Quiet : Quiet (λ _. false) one_task
one_task-Quiet =
    spawn-Quiet new_executor (λ _. false) new_executor-Quiet true 0 7 new_executor-Inv spawned

context : Context
unfolding one_task
context = record {
  simulators_by_type = λ _. none;
  simulators = some 3 ∷ [];
  rest = record { executor = one_task; event_handler = []; current_node = 5 };
}

context_of : Context → Result Context → Context
context_of cx (ok cx') = cx'
context_of cx (panic why) = cx

stopped : Context
unfolding context context_of stop_node node_scope mark_stopped abort_all abort_task abort_local
    drop_task for_all_simulators visit_from visit
stopped = context_of context (stop_node drop_future count count (λ xs. xs) 0 false context)

stops : stop_node drop_future count count (λ xs. xs) 0 false context ≡ ok stopped
unfolding stopped
stops = refl

-- The simulator was notified once.
notified : stopped.simulators ≡ some 4 ∷ []
unfolding stopped
notified = refl

over : Context
unfolding context context_of stop_simulation stop_node node_scope mark_stopped abort_all abort_task
    abort_local drop_task for_all_simulators visit_from visit
over = context_of context (stop_simulation drop_future count count (λ xs. xs) context)

ends : stop_simulation drop_future count count (λ xs. xs) context ≡ ok over
unfolding over
ends = refl

drop-Acts :
    (future : ℕ) (cx cx' : Context)
    → drop_future future cx ≡ ok cx'
    → Acts ℕ true cx.rest.executor cx'.rest.executor
drop-Acts future cx cx' e = let same : cx ≡ cx' = cc in rw (← same) rest

stop-Acts :
    (s s' : ℕ) (cx cx' : Context)
    → count s cx ≡ ok (s', cx')
    → Acts ℕ true cx.rest.executor cx'.rest.executor
stop-Acts s s' cx cx' e = let same : cx ≡ cx' = cc in rw (← same) rest

stop_node_lem_example :
    Inv none stopped.rest.executor
    × Quiet (λ _. false) stopped.rest.executor
    × (stopped.rest.current_node ≡ context.rest.current_node)
unfolding context
stop_node_lem_example =
    stop_node_lem drop_future count count (λ xs. xs) drop-Acts stop-Acts (λ xs i. refl) 0 false
      context stopped one_task-Inv one_task-Quiet stops

stop_simulation_lem_example :
    AllOver over.rest.executor × (over.rest.current_node ≡ context.rest.current_node)
unfolding context
stop_simulation_lem_example =
    stop_simulation_lem drop_future count count (λ xs. xs) drop-Acts stop-Acts (λ xs i. refl)
      context over one_task-Inv one_task-Quiet ends
