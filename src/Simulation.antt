-- ===== src/Simulation.antt =====
-- src/lib.rs and src/node_id.rs: the context of a simulation, the scope of a node, and the creation
-- of a node, which goes through the executor, the event handler and the simulators.
mod Examples
pub mod Spawning
pub mod Stopping
pub mod Handles
pub mod Turns
pub mod NodeSimulators
use refault.Prelude.{
  ℕ, ◌+◌, ◌-◌, Bool, true, false, Result, ok, ◌>>=◌, length, List, [], ◌∷◌, suc, zero,
}
use refault.Events.{EventHandler, node_spawned, task_spawned}
use refault.Executor.Tasks
use refault.Executor.State.{Executor}
use refault.Executor.Nodes.{push_new_node}
use refault.Simulators.{SimCxl, for_all_simulators}

-- `SimCxl` beside its simulators, and `current_node` of `SimCxu`.
pub record Cx (F H : Type 0) : Type 0 where
  pub executor : Executor F
  pub event_handler : H
  pub current_node : ℕ

module _ {S F H : Type 0} where
  abbrev pub on_node : SimCxl S (Cx F H) → ℕ → SimCxl S (Cx F H)
  on_node cx node = record cx { rest = record cx.rest { current_node = node } }

  -- `SimCx::node_scope`: its guard goes back to the node of the caller.
  unfoldable pub node_scope :
      ℕ
      → (SimCxl S (Cx F H) → Result (SimCxl S (Cx F H)))
      → SimCxl S (Cx F H)
      → Result (SimCxl S (Cx F H))
  node_scope node f cx = do
    let calling_node = cx.rest.current_node
    cx' ← f (on_node cx node)
    ok (on_node cx' calling_node)

  -- `NodeId::create_node`; the simulators have the callback `on_create`.
  unfoldable pub create_node :
      EventHandler H
      → (S → SimCxl S (Cx F H) → Result (S × SimCxl S (Cx F H)))
      → SimCxl S (Cx F H)
      → Result (ℕ × SimCxl S (Cx F H))
  unfolding node_scope
  create_node handler on_create cx = do
    (id, executor') ← push_new_node cx.rest.executor
    h' ← handler.handle_event cx.rest.event_handler (node_spawned id)
    cx' ←
        node_scope id (for_all_simulators true on_create)
          (record cx { rest = record cx.rest { executor = executor'; event_handler = h' } })
    ok (id, cx')

-- `spawn_task_on_node`: the id of the new task, which is what its handles refer to.
unfoldable pub spawn_task_on_node :
    {S F H : Type 0}
    → Bool
    → EventHandler H
    → (node : ℕ) → F
    → SimCxl S (Cx F H)
    → Result (ℕ × SimCxl S (Cx F H))
unfolding Tasks.spawn
spawn_task_on_node debug handler node future cx = do
  h' ← handler.handle_event cx.rest.event_handler task_spawned
  (id, executor') ← Tasks.spawn debug cx.rest.executor node future
  ok (id, record cx { rest = record cx.rest { executor = executor'; event_handler = h' } })

-- `executor::spawn`
unfoldable pub spawn_here :
    {S F H : Type 0}
    → Bool
    → EventHandler H
    → F
    → SimCxl S (Cx F H)
    → Result (ℕ × SimCxl S (Cx F H))
unfolding spawn_task_on_node
spawn_here debug handler future cx = spawn_task_on_node debug handler cx.rest.current_node future cx

-- `NodeId` is a non-zero number, one more than the node's index.
unfoldable pub from_index : ℕ → ℕ
from_index index = index + 1

unfoldable pub to_index : ℕ → ℕ
to_index id = id - 1

-- `NodeId::all`: the nodes that there are when it is called.
nodes_from : ℕ → ℕ → List ℕ
nodes_from id zero = []
nodes_from id (suc n) = id ∷ nodes_from (suc id) n

unfoldable pub all_nodes : {F : Type 0} → Executor F → List ℕ
unfolding nodes_from
all_nodes ex = nodes_from 0 (length ex.nodes)
