-- ===== src/Context/Examples.antt =====
-- A simulation that is installed and destroyed before anything ran.
use refault.Prelude.{
  ℕ, ◌≡◌, refl, true, false, List, [], none, some, Result, ok, panic, unwrap_none,
}
use refault.Events.{Event, recording, events}
use refault.Executor.State.{new_executor}
use refault.Executor.Nodes.{mark_stopped}
use refault.Simulators.{SimCxl, for_all_simulators, visit_from}
use refault.Simulation.{Cx, node_scope}
use refault.Simulation.Stopping.{stop_simulation, stop_from, stop_node, stop_inside, abort_all}
use refault.Context.{SimCx, new_thread, install, destroy, destroy_lem}

abbrev Context : Type 0
Context = SimCxl ℕ (Cx ℕ (List Event))

abbrev drop_one : ℕ → Context → Result Context
drop_one future cx = ok cx

abbrev notify : ℕ → Context → Result (ℕ × Context)
notify s cx = ok (s, cx)

abbrev iterate : List ℕ → List ℕ
iterate xs = xs

abbrev used : SimCx ℕ ℕ (List Event)
used = record {
  context = none;
  queue = true;
  once_cell = some (record { current_node = 0; time = 9 });
}

abbrev installed : Result (SimCx ℕ ℕ (List Event)) → SimCx ℕ ℕ (List Event)
installed (ok cx) = cx
installed (panic why) = new_thread

first : SimCx ℕ ℕ (List Event)
unfolding install
first = installed (install [] 9 new_thread)

held : first.once_cell ≡ some (record { current_node = 0; time = 9 })
unfolding first
held = refl

ends :
    destroy recording drop_one notify notify iterate drop_one true false true first
    ≡ ok (some (record { time_elapsed = 9; events = events [] }), used)
unfolding destroy first new_executor stop_simulation stop_from stop_node stop_inside node_scope
    mark_stopped abort_all for_all_simulators visit_from
ends = refl

destroy_lem_example :
    (used.context ≡ none)
    × (destroy recording drop_one notify notify iterate drop_one true false false used
        ≡ ok (none, used))
    × ((h : List Event) (start : ℕ) → install h start used ≡ panic unwrap_none)
destroy_lem_example =
    destroy_lem recording drop_one notify notify iterate drop_one true false true first
      (record { current_node = 0; time = 9 }) held ends
