-- ===== src/Simulation/Turns/Running.antt =====
-- In whole runs the tasks of a node that does not run are over, so that only a running node's task is
-- ever polled.
use refault.Prelude.{
  ℕ, zero, suc, ◌≡◌, refl, sym, subst, inl, inr, Bool, true, false, List, ◌∷◌, Option, arith, ok,
  Result, Result-cases, parts_of_ok, contains, length, if◌then◌else◌,
}
use refault.Executor.State.{Executor, TaskShared}
use refault.Executor.Tasks.{abort_local}
use refault.Executor.Nodes.{mark_started}
use refault.Executor.Polling.{run, pop_one}
use refault.Executor.Invariant.{Inv, new_executor-Inv}
use refault.Executor.Machine.{Machine, pop_front, Call, marks_started, stops_simulation, aborts}
use refault.Executor.Machine.Safety.{Step-Inv, Call-Inv}
use refault.Executor.Stopping.Actions.{Acts, act_then, basic}
use refault.Executor.Stopping.Quiet.{Quiet, is_on}
use refault.Executor.Stopping.Nesting.{Acts-Quiet, Call-Quiet}
use refault.Executor.Turns.Taking.{taken-Quiet, initial-Quiet, main-Quiet}
use refault.Simulators.{SimCxl, for_all_simulators}
use refault.Simulation.{Cx, on_node, node_scope}
use refault.Simulation.Stopping.{
  with_executor, abort_task, stop_node, start_inside, start_node, stop_from, stop_simulation,
}
use refault.Simulation.Stopping.Notifying.{for_all_simulators-Does}
use refault.Simulation.Stopping.Ending.{drop_task-Does, stop_node_lem}
use refault.Simulation.Turns.{
  Deed, calls, others, stops_node, starts_node, Turn, main, user, Run, start, next,
}

-- The invariant of runs: that of the executor, and no task alive on a node that does not run.
abbrev pub RunInv : {S F H : Type 0} → Option ℕ → SimCxl S (Cx F H) → Type 0
RunInv cur cx = Inv cur cx.rest.executor × Quiet (λ _. false) cx.rest.executor

module _ {S F H : Type 0} {debug : Bool}
    (drop_future : F → SimCxl S (Cx F H) → Result (SimCxl S (Cx F H)))
    (on_stop on_start : S → SimCxl S (Cx F H) → Result (S × SimCxl S (Cx F H)))
    (iterate : List ℕ → List ℕ)
    (drop_acts : (future : F) (cx cx' : SimCxl S (Cx F H))
      → drop_future future cx ≡ ok cx'
      → Acts F debug cx.rest.executor cx'.rest.executor)
    (stop_acts : (s s' : S) (cx cx' : SimCxl S (Cx F H))
      → on_stop s cx ≡ ok (s', cx')
      → Acts F debug cx.rest.executor cx'.rest.executor)
    (start_acts : (s s' : S) (cx cx' : SimCxl S (Cx F H))
      → on_start s cx ≡ ok (s', cx')
      → Acts F debug cx.rest.executor cx'.rest.executor)
    (iterate_contains : (xs : List ℕ) (i : ℕ) → contains (iterate xs) i ≡ contains xs i) where
  abort_task-RunInv :
      {cur : Option ℕ} (id : ℕ) (cx cx' : SimCxl S (Cx F H))
      → abort_task drop_future id cx ≡ ok cx'
      → RunInv cur cx
      → RunInv cur cx'
  unfolding abort_task
  abort_task-RunInv id cx cx' e h =
      let ((task, ex), local, dropped) = parts_of_ok (abort_local cx.rest.executor id) _ e in
      Acts-Quiet (λ _. false)
        (act_then (basic (aborts id task local) tt) (
          drop_task-Does drop_future on_stop on_start iterate drop_acts stop_acts iterate_contains
            task (with_executor cx ex) cx' dropped))
        h

  after_mark :
      {cur : Option ℕ} (was : Bool) (ex : Executor F) (cx cx' : SimCxl S (Cx F H))
      → (if was
          then ok (with_executor cx ex)
          else for_all_simulators false on_start (with_executor cx ex))
        ≡ ok cx'
      → RunInv cur (with_executor cx ex)
      → RunInv cur cx'
  after_mark {cur} true ex cx cx' e h =
      let same : with_executor cx ex ≡ cx' = ground arith in subst (RunInv cur) same h
  after_mark false ex cx cx' e h =
      Acts-Quiet (λ _. false)
        (for_all_simulators-Does debug on_start start_acts false (with_executor cx ex) cx' e) h

  start_inside-RunInv :
      {cur : Option ℕ} (node : ℕ) (cx cx' : SimCxl S (Cx F H))
      → start_inside drop_future on_stop on_start iterate node cx ≡ ok cx'
      → RunInv cur cx
      → RunInv cur cx'
  unfolding start_inside
  start_inside-RunInv node cx cx' e (v, q) =
      let ((was, ex), marked, after) = parts_of_ok (mark_started cx.rest.executor node) _ e in
      let call : Call debug cx.rest.executor ex = marks_started node was marked in
      let h : RunInv _ (with_executor cx ex) =
        (Call-Inv v call, Call-Quiet (λ _. false) call tt v q) in
      after_mark was ex cx cx' after h

  start_node-RunInv :
      {cur : Option ℕ} (node : ℕ) (cx cx' : SimCxl S (Cx F H))
      → start_node drop_future on_stop on_start iterate node cx ≡ ok cx'
      → RunInv cur cx
      → RunInv cur cx'
  unfolding start_node node_scope
  start_node-RunInv {cur} node cx cx' e h =
      let (cx1, started, back) =
        parts_of_ok (start_inside drop_future on_stop on_start iterate node (on_node cx node)) _
          e in
      let same : cx'.rest.executor ≡ cx1.rest.executor = ground arith in
      rw (same) (start_inside-RunInv node (on_node cx node) cx1 started h)

  stop_node-RunInv :
      {cur : Option ℕ} (node : ℕ) (is_final : Bool) (cx cx' : SimCxl S (Cx F H))
      → stop_node drop_future on_stop on_start iterate node is_final cx ≡ ok cx'
      → RunInv cur cx
      → RunInv cur cx'
  stop_node-RunInv node is_final cx cx' e (v, q) =
      let (v', q', _) =
        stop_node_lem drop_future on_stop on_start iterate drop_acts stop_acts iterate_contains node
          is_final cx cx' v q e in
      (v', q')

  stop_from-RunInv :
      {cur : Option ℕ} (from n : ℕ) (cx cx' : SimCxl S (Cx F H))
      → stop_from drop_future on_stop on_start iterate from n cx ≡ ok cx'
      → RunInv cur cx
      → RunInv cur cx'
  unfolding stop_from
  stop_from-RunInv {cur} from zero cx cx' e h =
      let same : cx ≡ cx' = ground arith in subst (RunInv cur) same h
  stop_from-RunInv from (suc n) cx cx' e h =
      elim (Result-cases (stop_node drop_future on_stop on_start iterate from true cx)) [
        | inl (cx1, stopped) ↦
            stop_from-RunInv (suc from) n cx1 cx' (ground arith)
              (stop_node-RunInv from true cx cx1 stopped h)
        | inr (why, raised) ↦ absurd (ground arith)
      ]

  stop_simulation-RunInv :
      {cur : Option ℕ} (cx cx' : SimCxl S (Cx F H))
      → stop_simulation drop_future on_stop on_start iterate cx ≡ ok cx'
      → RunInv cur cx
      → RunInv cur cx'
  unfolding stop_simulation
  stop_simulation-RunInv {cur} cx cx' e (v, q) =
      let call : Call debug cx.rest.executor (record cx.rest.executor { final_stopped = true }) =
        stops_simulation refl in
      stop_from-RunInv 0 (length cx.rest.executor.nodes)
        (with_executor cx (record cx.rest.executor { final_stopped = true })) cx' e
        (Call-Inv v call, Call-Quiet (λ _. false) call tt v q)

  Deed-RunInv :
      {cur : Option ℕ} (cx cx' : SimCxl S (Cx F H))
      → Deed debug drop_future on_stop on_start iterate cx cx'
      → RunInv cur cx
      → RunInv cur cx'
  Deed-RunInv cx cx' (calls c b) (v, q) = (Call-Inv v c, Call-Quiet (λ _. false) c b v q)
  Deed-RunInv cx cx' (others same) h = rw (same) h
  Deed-RunInv cx cx' (Deed.aborts id e) h = abort_task-RunInv id cx cx' e h
  Deed-RunInv cx cx' (stops_node node is_final e) h = stop_node-RunInv node is_final cx cx' e h
  Deed-RunInv cx cx' (starts_node node e) h = start_node-RunInv node cx cx' e h
  Deed-RunInv cx cx' (Deed.stops_simulation e) h = stop_simulation-RunInv cx cx' e h

  Turn-RunInv :
      {cur cur' : Option ℕ} {cx cx' : SimCxl S (Cx F H)}
      → Turn debug drop_future on_stop on_start iterate cur cx cur' cx'
      → RunInv cur cx
      → RunInv cur' cx'
  Turn-RunInv (main st m) (v, q) = (Step-Inv v st, main-Quiet st m q)
  Turn-RunInv {cx} {cx'} (user deed same) h =
      subst (λ c. RunInv c cx') (sym same) (Deed-RunInv cx cx' deed h)

  -- Between the turns of any run, in which the main loop and code of the user alternate, and that code
  -- calls `stop_node`, `start_node`, `stop_simulation` and `abort` over the whole context: the
  -- executor's invariant holds, and every task that is on a node which does not run is completed or
  -- aborted. Destructors and callbacks, which these functions run, reach the executor through its
  -- interface alone; a set's iteration visits exactly its elements.
  pub Run-Quiet :
      {cur : Option ℕ} {cx : SimCxl S (Cx F H)}
      → Run debug drop_future on_stop on_start iterate cur cx
      → Inv cur cx.rest.executor × Quiet (λ _. false) cx.rest.executor
  Run-Quiet (start cx same) =
      subst (λ (m : Machine F). Inv m.current m.executor × Quiet (λ _. false) m.executor) (sym same)
        (new_executor-Inv, initial-Quiet F)
  Run-Quiet (next r t) = Turn-RunInv t (Run-Quiet r)

  -- Whenever the main loop takes a task out of its entry to poll it, at any point of any such run, the
  -- task's node is running: a task of a stopped node is never polled.
  pub Run-polled :
      {cur : Option ℕ} {cx : SimCxl S (Cx F H)} (k : ℕ) (rest : List ℕ) (p : ℕ) (future : F)
      (sh : TaskShared) (ex : Executor F)
      → Run debug drop_future on_stop on_start iterate cur cx
      → cx.rest.executor.ready_queue ≡ k ∷ rest
      → pop_one debug (pop_front cx.rest.executor rest) k ≡ ok (run p future sh ex)
      → is_on cx.rest.executor.nodes sh.node ≡ true
  Run-polled {cx} k rest p future sh ex r queue e =
      (taken-Quiet debug (pop_front cx.rest.executor rest) ex k p future sh e ((Run-Quiet r).1)).1
