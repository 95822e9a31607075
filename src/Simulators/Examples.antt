-- ===== src/Simulators/Examples.antt =====
-- Two simulators, numbers, registered and called.
use refault.Prelude.{
  ℕ, ◌+◌, ◌≡◌, refl, true, false, List, [], ◌∷◌, none, some, Result, ok, panic, already_borrowed,
  update,
}
use refault.Simulators.{SimCxl, add_simulator, for_all_simulators, with_simulator}
use refault.Simulators.Order.{callback, registry, for_all_simulators_lem}
use refault.Simulators.Locking.{Unlocked, calm, nested, with_simulator_lem}

abbrev start : SimCxl ℕ (List ℕ)
start = record { simulators_by_type = λ _. none; simulators = []; rest = [] }

abbrev first : SimCxl ℕ (List ℕ)
first = record {
  simulators_by_type = update (λ _. none) 7 (some 0);
  simulators = some 10 ∷ [];
  rest = [];
}

-- A callback that notes the simulator and counts it up.
abbrev note : ℕ → List ℕ → Result (ℕ × List ℕ)
note s x = ok (s + 1, s ∷ x)

for_all_simulators_lem_example :
    (for_all_simulators true
        (callback (λ _. none) note)
        (registry (λ _. none) note (some 10 ∷ some 20 ∷ []) [])
      ≡ ok (registry (λ _. none) note (some 11 ∷ some 21 ∷ []) (20 ∷ 10 ∷ [])))
    × (for_all_simulators false
          (callback (λ _. none) note)
          (registry (λ _. none) note (some 20 ∷ some 10 ∷ []) [])
        ≡ ok (registry (λ _. none) note (some 21 ∷ some 11 ∷ []) (20 ∷ 10 ∷ [])))
for_all_simulators_lem_example = for_all_simulators_lem (λ _. none) note (10 ∷ 20 ∷ []) []

add_simulator_returns : add_simulator 1 false 7 10 start ≡ ok first
unfolding add_simulator
add_simulator_returns = refl

first_free : Unlocked first 7 0 10
first_free = (refl, refl)

abbrev bump : ℕ → List ℕ → Result (ℕ × ℕ × List ℕ)
bump s x = ok (s, s + 5, x)

abbrev any : ℕ → SimCxl ℕ (List ℕ) → Result (ℕ × ℕ × SimCxl ℕ (List ℕ))
any s cx = ok (s, s, cx)

with_simulator_lem_example :
    (with_simulator 7 (calm first 7 0 10 first_free bump) first
      ≡ ok (10, record first { simulators = some 15 ∷ [] }))
    × (with_simulator 7 (nested first 7 0 10 first_free any) first ≡ panic already_borrowed)
with_simulator_lem_example = with_simulator_lem first 7 0 10 first_free bump any
