-- ===== src/Events/Examples.antt =====
-- Runs of the event handlers.
use mathlib.Core.Path.{◌≡◌, refl}
use refault.Prelude.{ℕ, ◌+◌, ◌*◌, ◌↔◌, ◌⊎◌, [], ◌∷◌, panic, diverged, ok, List}
use refault.Events.{
  Event, task_run, time_advanced, node_spawned, task_spawned, unit, AHasher, new_validation,
  validating, validate, handle_all,
}
use refault.Events.Replay.{check_full, check_hash, check_hash_lem, digest}

differs :
    handle_all validating (new_validation (task_run 1 ∷ [])) (task_run 2 ∷ []) ≡ panic diverged
unfolding handle_all validate
differs = refl

abbrev first : List Event
first = task_spawned ∷ task_run 1 ∷ time_advanced 5 ∷ []

abbrev shorter : List Event
shorter = task_spawned ∷ task_run 1 ∷ []

code : Event → ℕ
code (task_run id) = 4 * id
code (time_advanced dt) = 4 * dt + 1
code (node_spawned node) = 4 * node + 2
code task_spawned = 3

-- A hasher for the tests.
polynomial : AHasher ℕ
unfolding code
polynomial = record { new = 7; write = λ s e. 31 * s + code e; finish = λ s. s }

check_hash_lem_example :
    ((check_hash polynomial first shorter ≡ ok unit)
      ↔ (digest polynomial shorter ≡ digest polynomial first))
    × ((check_hash polynomial first shorter ≡ ok unit)
        ⊎ (check_hash polynomial first shorter ≡ panic diverged))
    × (check_full first shorter ≡ ok unit → check_hash polynomial first shorter ≡ ok unit)
check_hash_lem_example = check_hash_lem polynomial first shorter
