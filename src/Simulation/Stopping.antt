-- ===== src/Simulation/Stopping.antt =====
-- src/executor.rs and src/node_id.rs: `stop_node`, `start_node`, `stop_simulation` and `abort_inner` over the whole
-- context, in the scope of the node, with the simulators.
mod Examples
pub mod Notifying
pub mod Ending
pub mod Slots
pub mod Returning
use refault.Prelude.{
  ℕ, zero, suc, Bool, true, false, List, [], ◌∷◌, Option, none, some, Result, ok, panic, ◌>>=◌,
  length, if◌then◌else◌,
}
use refault.Executor.State.{Executor, TaskShared, deref, node_tasks}
use refault.Executor.Tasks.{abort_local}
use refault.Executor.Nodes.{mark_stopped, mark_started}
use refault.Simulators.{SimCxl, for_all_simulators}
use refault.Simulation.{Cx, node_scope}

module _ {S F H : Type 0} where
  abbrev pub with_executor : SimCxl S (Cx F H) → Executor F → SimCxl S (Cx F H)
  with_executor cx ex = record cx { rest = record cx.rest { executor = ex } }

  module _ (drop_future : F → SimCxl S (Cx F H) → Result (SimCxl S (Cx F H))) where
    -- `drop(task)`, outside of any borrow.
    unfoldable pub drop_task : Option F → SimCxl S (Cx F H) → Result (SimCxl S (Cx F H))
    drop_task none cx = ok cx
    drop_task (some future) cx = drop_future future cx

    -- `abort_local` on a task, which is then dropped.
    unfoldable pub abort_task : ℕ → SimCxl S (Cx F H) → Result (SimCxl S (Cx F H))
    unfolding drop_task
    abort_task id cx = do
      (task, ex) ← abort_local cx.rest.executor id
      drop_task task (with_executor cx ex)

    -- `AbortHandle::abort_inner`, for the `TaskShared` at an address.
    unfoldable pub abort_inner : ℕ → SimCxl S (Cx F H) → Result (SimCxl S (Cx F H))
    unfolding abort_task node_scope
    abort_inner p cx = do
      this ← deref cx.rest.executor p
      node_scope this.node (abort_task this.id) cx

    unfoldable pub abort_all : List ℕ → SimCxl S (Cx F H) → Result (SimCxl S (Cx F H))
    unfolding abort_task
    abort_all [] cx = ok cx
    abort_all (id ∷ ids) cx = elim (abort_task id cx) [
      | ok cx' ↦ abort_all ids cx'
      | panic why ↦ panic why
    ]

    module _ (on_stop on_start : S → SimCxl S (Cx F H) → Result (S × SimCxl S (Cx F H)))
        (iterate : List ℕ → List ℕ) where
      unfoldable pub stop_inside : ℕ → Bool → SimCxl S (Cx F H) → Result (SimCxl S (Cx F H))
      unfolding abort_all for_all_simulators
      stop_inside node is_final cx = do
        (was_running, ex) ← mark_stopped cx.rest.executor node is_final
        if was_running
            then (do
              cx' ← abort_all (iterate (node_tasks ex.nodes node)) (with_executor cx ex)
              for_all_simulators false on_stop cx')
            else ok (with_executor cx ex)

      -- `stop_node`, and with `false` for the last stop `NodeId::stop`.
      unfoldable pub stop_node : ℕ → Bool → SimCxl S (Cx F H) → Result (SimCxl S (Cx F H))
      unfolding stop_inside node_scope
      stop_node node is_final cx = node_scope node (stop_inside node is_final) cx

      unfoldable pub start_inside : ℕ → SimCxl S (Cx F H) → Result (SimCxl S (Cx F H))
      unfolding for_all_simulators
      start_inside node cx = do
        (was_running, ex) ← mark_started cx.rest.executor node
        if was_running
            then ok (with_executor cx ex)
            else for_all_simulators false on_start (with_executor cx ex)

      -- `start_node`, which is `NodeId::start`.
      unfoldable pub start_node : ℕ → SimCxl S (Cx F H) → Result (SimCxl S (Cx F H))
      unfolding start_inside node_scope
      start_node node cx = node_scope node (start_inside node) cx

      unfoldable pub stop_from : ℕ → ℕ → SimCxl S (Cx F H) → Result (SimCxl S (Cx F H))
      unfolding stop_node
      stop_from from zero cx = ok cx
      stop_from from (suc n) cx = elim (stop_node from true cx) [
        | ok cx' ↦ stop_from (suc from) n cx'
        | panic why ↦ panic why
      ]

      -- `stop_simulation`
      unfoldable pub stop_simulation : SimCxl S (Cx F H) → Result (SimCxl S (Cx F H))
      unfolding stop_from
      stop_simulation cx =
          stop_from 0 (length cx.rest.executor.nodes)
            (with_executor cx (record cx.rest.executor { final_stopped = true }))
