-- ===== src/Executor/Nodes.antt =====
-- src/executor.rs: nodes and their run levels.
use refault.Prelude.{
  ℕ, Bool, true, false, not, [], ◌∷◌, ◌++◌, none, some, Result, ok, panic, out_of_range,
  shutting_down, assert, ◌>>◌, length, get_elem?, set, if◌then◌else◌,
}
use refault.Executor.State.{NodeRunLevel, running, stopped, final_stopped, NodeData, Executor}

module _ {F : Type 0} where
  -- `Executor::push_new_node`
  unfoldable pub push_new_node : Executor F → Result (ℕ × Executor F)
  push_new_node ex = do
    let id = length ex.nodes
    assert (not ex.final_stopped) shutting_down
    ok (id, record ex { nodes = ex.nodes ++ record { run_level = running; tasks = [] } ∷ [] })

  set_level : Executor F → ℕ → NodeData → NodeRunLevel → Executor F
  set_level ex node d level = record ex {
    nodes = set ex.nodes node (record d { run_level = level });
  }

  stop_in : Executor F → ℕ → Bool → NodeData → NodeRunLevel → Bool × Executor F
  unfolding set_level
  stop_in ex node is_final d running =
      (true, set_level ex node d (if is_final then final_stopped else stopped))
  stop_in ex node is_final d _ = (false, if is_final then set_level ex node d final_stopped else ex)

  -- The first part of `stop_node`: whether the node was running.
  unfoldable pub mark_stopped : Executor F → ℕ → Bool → Result (Bool × Executor F)
  unfolding stop_in
  mark_stopped ex node is_final = elim (get_elem? ex.nodes node) [
    | none ↦ panic out_of_range
    | some d ↦ ok (stop_in ex node is_final d d.run_level)
  ]

  start_in : Executor F → ℕ → NodeData → NodeRunLevel → Result (Bool × Executor F)
  unfolding set_level
  start_in ex node d running = ok (true, ex)
  start_in ex node d final_stopped = panic shutting_down
  start_in ex node d stopped = ok (false, set_level ex node d running)

  -- The first part of `start_node`: whether the node was running.
  unfoldable pub mark_started : Executor F → ℕ → Result (Bool × Executor F)
  unfolding start_in
  mark_started ex node = elim (get_elem? ex.nodes node) [
    | none ↦ panic out_of_range
    | some d ↦ start_in ex node d d.run_level
  ]
