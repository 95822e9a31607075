-- ===== src/Simulation/Handles.antt =====
-- src/executor.rs and src/node_id.rs: what the handles of a task do, and the methods of `NodeId`, over the whole context.
use refault.Prelude.{ℕ, Bool, false, List, Result, ok, ◌>>=◌}
use refault.Events.{EventHandler}
use refault.Simulators.{SimCxl}
use refault.Simulation.{Cx, spawn_task_on_node}
use refault.Simulation.Stopping.{abort_inner, stop_node, start_node}

-- `result` is the receiver, and `abort` the `AbortHandle`, which is the address of the `TaskShared`.
pub record TaskHandle (C : Type 0) : Type 0 where
  pub result : C
  pub abort : ℕ

-- `TaskHandle::abort_handle`
unfoldable pub abort_handle : {C : Type 0} → TaskHandle C → ℕ
abort_handle handle = handle.abort

module _ {S F H C : Type 0} where
  -- `TaskHandle::abort`; `AbortHandle::abort` and the destructor of `AbortGuard` are `abort_inner` too.
  unfoldable pub abort_by_handle :
      (F → SimCxl S (Cx F H) → Result (SimCxl S (Cx F H)))
      → TaskHandle C
      → SimCxl S (Cx F H)
      → Result (SimCxl S (Cx F H))
  unfolding abort_inner
  abort_by_handle drop_future handle cx = abort_inner drop_future handle.abort cx

  -- `TaskHandle::detach`, but for the receiver that goes away.
  unfoldable pub detach : TaskHandle C → SimCxl S (Cx F H) → Result (SimCxl S (Cx F H))
  detach handle cx = ok cx

-- `NodeId::current`
unfoldable pub current : {S F H : Type 0} → SimCxl S (Cx F H) → ℕ
current cx = cx.rest.current_node

module _ {S F H : Type 0} where
  -- `NodeId::spawn`
  unfoldable pub spawn_detached :
      Bool → EventHandler H → (node : ℕ) → F → SimCxl S (Cx F H) → Result (SimCxl S (Cx F H))
  unfolding spawn_task_on_node
  spawn_detached debug handler node future cx = do
    (id, cx') ← spawn_task_on_node debug handler node future cx
    ok cx'

  module _ (drop_future : F → SimCxl S (Cx F H) → Result (SimCxl S (Cx F H)))
      (on_stop on_start : S → SimCxl S (Cx F H) → Result (S × SimCxl S (Cx F H)))
      (iterate : List ℕ → List ℕ) where
    -- `NodeId::stop`
    unfoldable pub stop : ℕ → SimCxl S (Cx F H) → Result (SimCxl S (Cx F H))
    unfolding stop_node
    stop node cx = stop_node drop_future on_stop on_start iterate node false cx

    -- `NodeId::start`
    unfoldable pub start : ℕ → SimCxl S (Cx F H) → Result (SimCxl S (Cx F H))
    unfolding start_node
    start node cx = start_node drop_future on_stop on_start iterate node cx
