-- ===== src/Context/Closing.antt =====
-- src/context_install_guard.rs: `destroy` after a simulation that has come to its end.
use refault.Prelude.{
  ℕ, zero, suc, ◌≡◌, refl, Bool, true, false, ◌||◌, List, [], ◌∷◌, Option, some, none, is_some,
  Result, Returns, ok, arith, inl, inr, contains, length,
}
use refault.Events.{EventHandler}
use refault.Executor.State.{Executor}
use refault.Executor.Choosing.{HasNone}
use refault.Executor.Invariant.{Inv}
use refault.Executor.Stopping.Actions.{Acts}
use refault.Simulators.{SimCxl}
use refault.Simulation.{Cx}
use refault.Simulation.Stopping.Slots.{there, AllThere, SameSlots}
use refault.Simulation.Stopping.Returning.{AllThere-same, stop_simulation-Returns}
use refault.Context.{
  SimCxu, SimCx, SimulationEnd, pop, drop_all, none_ready, finalize, destroy_in, destroy_held,
  in_first_node, destroy,
}

AllThere-cons :
    {S : Type 0} (slot : Option S) (slots : List (Option S))
    → is_some slot ≡ true
    → AllThere slots
    → AllThere (slot ∷ slots)
AllThere-cons slot slots here all zero below = here
AllThere-cons slot slots here all (suc k) below = all k (omega arith)

-- The last of simulators that are all there is there, and so are those before it.
pop-there :
    {S : Type 0} (slot : Option S) (slots : List (Option S))
    → AllThere (slot ∷ slots)
    → (s : S) × (before : List (Option S)) × (pop (slot ∷ slots) ≡ some (some s, before))
      × (length before ≡ length slots)
      × AllThere before
unfolding pop
pop-there none [] all = absurd (ground (arith, all 0))
pop-there (some s) [] all = (s, [], refl, refl, λ k below. ground arith)
pop-there slot (next ∷ slots) all =
    let (s, before, popped, size, there) =
      pop-there next slots (λ k below. all (suc k) (omega arith)) in
    (
      s,
      slot ∷ before,
      rw (popped) refl,
      omega arith,
      AllThere-cons slot before (all 0 (omega arith)) there,
    )

module _ {S F H : Type 0} {debug : Bool} (handler : EventHandler H)
    (drop_future : F → SimCxl S (Cx F H) → Result (SimCxl S (Cx F H)))
    (on_stop on_start : S → SimCxl S (Cx F H) → Result (S × SimCxl S (Cx F H)))
    (iterate : List ℕ → List ℕ)
    (drop_simulator : S → SimCxl S (Cx F H) → Result (SimCxl S (Cx F H)))
    (drop_acts : (future : F) (cx cx' : SimCxl S (Cx F H))
      → drop_future future cx ≡ ok cx'
      → Acts F debug cx.rest.executor cx'.rest.executor)
    (stop_acts : (s s' : S) (cx cx' : SimCxl S (Cx F H))
      → on_stop s cx ≡ ok (s', cx')
      → Acts F debug cx.rest.executor cx'.rest.executor)
    (iterate_contains : (xs : List ℕ) (i : ℕ) → contains (iterate xs) i ≡ contains xs i)
    (drops : (future : F) (cx : SimCxl S (Cx F H))
      → Inv none cx.rest.executor
      → (cx' : SimCxl S (Cx F H)) × (drop_future future cx ≡ ok cx')
        × SameSlots cx.simulators cx'.simulators)
    (stops : (s : S) (cx : SimCxl S (Cx F H))
      → Inv none cx.rest.executor
      → (s' : S) × (cx' : SimCxl S (Cx F H)) × (on_stop s cx ≡ ok (s', cx'))
        × SameSlots cx.simulators cx'.simulators)
    (destructs : (s : S) (cx : SimCxl S (Cx F H))
      → (cx' : SimCxl S (Cx F H)) × (drop_simulator s cx ≡ ok cx')
        × SameSlots cx.simulators cx'.simulators)
    (finalizes : (h : H) → Returns (handler.finalize h)) where
  drop_all-Returns :
      (n : ℕ) (slots : List (Option S)) (cx : SimCxl S (Cx F H))
      → cx.simulators ≡ slots
      → length slots ≡ n
      → AllThere slots
      → Returns (drop_all handler drop_future on_stop on_start iterate drop_simulator (suc n) cx)
  unfolding drop_all pop
  drop_all-Returns n [] cx at size all = (cx, ground arith)
  drop_all-Returns zero (slot ∷ slots) cx at size all = absurd (omega arith)
  drop_all-Returns (suc n) (slot ∷ slots) cx at size all =
      let (s, before, popped, fewer, there) = pop-there slot slots all in
      let (cx1, dropped, same) = destructs s (record cx { simulators = before }) in
      let short : length cx1.simulators ≡ n = omega (arith, same.0) in
      let (cx', rest) =
        drop_all-Returns n cx1.simulators cx1 refl short
          (AllThere-same before cx1.simulators same there) in
      (cx', rw (drop_all, at, popped, dropped) rest)

  idle :
      (ex : Executor F)
      → HasNone ex
      → (none_ready handler drop_future on_stop on_start iterate drop_simulator ex.ready_queue
          || false
          || ex.final_stopped)
        ≡ true
  unfolding none_ready
  idle ex (inl over) = ground arith
  idle ex (inr empty) = ground arith

  checks_first :
      (debug : Bool) (cx : SimCx S F H) (cxu : SimCxu)
      → cx.once_cell ≡ some cxu
      → cxu.current_node ≡ 0
      → in_first_node handler drop_future on_stop on_start iterate drop_simulator debug cx.once_cell
        ≡ ok tt
  unfolding in_first_node
  checks_first false cx cxu set at_first = refl
  checks_first true cx cxu set at_first = ground arith

  -- After a main loop that has left no task to poll, in the scope of the first node and with no
  -- simulator in use, `destroy` returns the time and the events, if the user's code returns.
  pub destroy-Returns :
      (cx : SimCx S F H) (cxu : SimCxu) (cxl : SimCxl S (Cx F H))
      → cx.once_cell ≡ some cxu
      → cx.context ≡ some cxl
      → cxu.current_node ≡ 0
      → HasNone cxl.rest.executor
      → Inv none cxl.rest.executor
      → AllThere cxl.simulators
      → (end : SimulationEnd) × (cx' : SimCx S F H) × (destroy handler drop_future on_stop on_start
            iterate drop_simulator debug false true cx
          ≡ ok (some end, cx'))
        × (end.time_elapsed ≡ cxu.time)
  unfolding destroy destroy_held destroy_in finalize
  destroy-Returns cx cxu cxl set held at_first over v there =
      let (stopped, stops_all, same) =
        stop_simulation-Returns drop_future on_stop on_start iterate drop_acts stop_acts
          iterate_contains drops stops cxl v there in
      let (emptied, dropped) =
        drop_all-Returns (length stopped.simulators) stopped.simulators stopped refl refl
          (AllThere-same cxl.simulators stopped.simulators same there) in
      let (out, final) = finalizes emptied.rest.event_handler in
      let checked = idle cxl.rest.executor over in
      let first = checks_first debug cx cxu set at_first in
      (
        record { time_elapsed = cxu.time; events = out },
        record cx { context = none },
        ground arith,
        refl,
      )
