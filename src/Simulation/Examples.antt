-- ===== src/Simulation/Examples.antt =====
-- The nodes of a new simulation.
use refault.Prelude.{ℕ, ◌≡◌, refl, [], ◌∷◌}
use refault.Executor.State.{new_executor}
use refault.Simulation.{all_nodes}

first_node_alone : all_nodes (new_executor {F = ℕ}) ≡ 0 ∷ []
unfolding all_nodes new_executor
first_node_alone = refl
