-- ===== src/Simulation/Spawning.antt =====
-- Spawning a task on the current node and on another one.
use refault.Prelude.{ℕ, ◌≡◌, refl, Bool, Result, Result-cases, ok, panic, inl, inr}
use refault.Events.{EventHandler, task_spawned}
use refault.Executor.Tasks
use refault.Simulators.{SimCxl}
use refault.Simulation.{Cx, node_scope, spawn_task_on_node, spawn_here}

abbrev pub new_state :
    {S F H : Type 0} → Result (ℕ × SimCxl S (Cx F H)) → Result (SimCxl S (Cx F H))
new_state (ok (id, cx)) = ok cx
new_state (panic why) = panic why

module _ {S F H : Type 0} (debug : Bool) (handler : EventHandler H) (future : F) where
  -- `executor::spawn` inside the scope of a node does to the whole context, panics included, what
  -- `spawn_task_on_node` does with this node from anywhere.
  pub node_scope-spawn_here :
      (node : ℕ) (cx : SimCxl S (Cx F H))
      → node_scope node (λ inner. new_state (spawn_here debug handler future inner)) cx
        ≡ new_state (spawn_task_on_node debug handler node future cx)
  unfolding node_scope spawn_here spawn_task_on_node
  node_scope-spawn_here node cx =
      elim (Result-cases (handler.handle_event cx.rest.event_handler task_spawned)) [
        | inr (why, e) ↦ rw (e) refl
        | inl (h, e) ↦ elim (Result-cases (Tasks.spawn debug cx.rest.executor node future)) [
          | inl ((id, ex), e') ↦ rw (e, e') refl
          | inr (why, e') ↦ rw (e, e') refl
        ]
      ]
