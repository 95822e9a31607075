-- ===== src/Context.antt =====
-- src/context_install_guard.rs: a simulation's context in the thread locals, from `new` to `destroy`.
mod Examples
pub mod Closing
use refault.Prelude.{
  ℕ, zero, suc, length, out_of_fuel, Bool, true, false, not, ◌||◌, ◌≡◌, ◌∙◌, sym, subst, refl, List,
  [], ◌∷◌, Option, none, some, is_some, Result, ok, panic, Panic, unwrap_none, assert_failed,
  assert, ◌>>=◌, ◌>>◌, ◌==◌, parts_of_ok, arith, Option-cases, inl, inr, ◌⊎◌,
}
use refault.Events.{EventHandler, Output, unit}
use refault.Executor.State.{Executor, new_executor}
use refault.Simulation.Stopping.{stop_simulation}
use refault.Simulators.{SimCxl}
use refault.Simulation.{Cx}

-- `SimCxu`: the parts that `destroy` reads.
pub record SimCxu : Type 0 where
  pub current_node : ℕ
  pub time : ℕ

-- `SimCx`, the thread locals: whether there is a queue, and the cells with their contents. A `OnceCell`
-- is never emptied.
pub record SimCx (S F H : Type 0) : Type 0 where
  pub context : Option (SimCxl S (Cx F H))
  pub queue : Bool
  pub once_cell : Option SimCxu

pub record SimulationEnd : Type 0 where
  pub time_elapsed : ℕ
  pub events : Output

-- `Vec::pop`
unfoldable pub pop : {A : Type 0} → List A → Option (A × List A)
pop [] = none
pop (x ∷ xs) = elim (pop xs) [ none ↦ some (x, []) | some (last, rest) ↦ some (last, x ∷ rest) ]

module _ {S F H : Type 0} where
  -- A thread that ran no simulation yet.
  abbrev pub new_thread : SimCx S F H
  new_thread = record { context = none; queue = false; once_cell = none }

  -- `ContextInstallGuard::new`; the random numbers are left out.
  unfoldable pub install : H → ℕ → SimCx S F H → Result (SimCx S F H)
  install event_handler start_time cx = do
    assert (not (is_some cx.once_cell)) unwrap_none
    assert (not cx.queue) assert_failed
    assert (not (is_some cx.context)) assert_failed
    ok (record {
      context = some (record {
        simulators_by_type = λ _. none;
        simulators = [];
        rest = record { executor = new_executor; event_handler = event_handler; current_node = 0 };
      });
      queue = true;
      once_cell = some (record { current_node = 0; time = start_time });
    })

  module _ (handler : EventHandler H)
      (drop_future : F → SimCxl S (Cx F H) → Result (SimCxl S (Cx F H)))
      (on_stop on_start : S → SimCxl S (Cx F H) → Result (S × SimCxl S (Cx F H)))
      (iterate : List ℕ → List ℕ)
      (drop_simulator : S → SimCxl S (Cx F H) → Result (SimCxl S (Cx F H))) where
    -- The loop that pops the simulators and drops each, with fuel for the number of simulators and one
    -- round more; a destructor that adds simulators would need more, but `add_simulator` panics here.
    unfoldable pub drop_all : ℕ → SimCxl S (Cx F H) → Result (SimCxl S (Cx F H))
    unfolding pop
    drop_all zero cx = panic out_of_fuel
    drop_all (suc fuel) cx = elim (pop cx.simulators) [
      | none ↦ ok cx
      | some (none, slots) ↦ panic unwrap_none
      | some (some s, slots) ↦ elim (drop_simulator s (record cx { simulators = slots })) [
        | ok cx' ↦ drop_all fuel cx'
        | panic why ↦ panic why
      ]
    ]

    unfoldable pub none_ready : List ℕ → Bool
    none_ready [] = true
    none_ready (id ∷ ids) = false

    unfoldable pub finalize : Bool → H → Result Output
    finalize true h = handler.finalize h
    finalize false h = ok unit

    unfoldable pub destroy_in :
        Bool
        → Bool
        → SimCx S F H
        → SimCxu
        → SimCxl S (Cx F H)
        → Result (Option SimulationEnd × SimCx S F H)
    unfolding drop_all none_ready finalize stop_simulation
    destroy_in panicking finalize_events cx cxu cxl = do
      assert
          (none_ready cxl.rest.executor.ready_queue || panicking || cxl.rest.executor.final_stopped)
          assert_failed
      stopped ← stop_simulation drop_future on_stop on_start iterate cxl
      emptied ← drop_all (suc (length stopped.simulators)) stopped
      out ← finalize finalize_events emptied.rest.event_handler
      ok (some (record { time_elapsed = cxu.time; events = out }), record cx { context = none })

    -- `debug_assert!`, which reads the current node in debug builds alone.
    unfoldable pub in_first_node : Bool → Option SimCxu → Result (Unit {0})
    in_first_node false cxu = ok tt
    in_first_node true none = panic unwrap_none
    in_first_node true (some cxu) = assert (cxu.current_node == 0) assert_failed

    unfoldable pub destroy_held :
        (panicking finalize_events : Bool)
        → SimCx S F H
        → Result (Option SimulationEnd × SimCx S F H)
    unfolding destroy_in
    destroy_held panicking finalize_events cx = elim cx.context [
      | none ↦ ok (none, cx)
      | some cxl ↦ elim cx.once_cell [
        | none ↦ panic unwrap_none
        | some cxu ↦ destroy_in panicking finalize_events cx cxu cxl
      ]
    ]

    -- `ContextInstallGuard::destroy`; `panicking` is that of the thread.
    unfoldable pub destroy :
        (debug panicking finalize_events : Bool)
        → SimCx S F H
        → Result (Option SimulationEnd × SimCx S F H)
    unfolding destroy_held in_first_node
    destroy debug panicking finalize_events cx = do
      in_first_node debug cx.once_cell
      destroy_held panicking finalize_events cx

    in_context :
        (panicking finalize_events : Bool) (cx : SimCx S F H) (cxu : SimCxu)
        (cxl : SimCxl S (Cx F H)) {out : Option SimulationEnd} {cx' : SimCx S F H}
        → destroy_in panicking finalize_events cx cxu cxl ≡ ok (out, cx')
        → cx' ≡ record cx { context = none }
    unfolding destroy_in
    in_context panicking finalize_events cx cxu cxl e =
        let (checked, idle, e1) =
          parts_of_ok
            (assert
              (none_ready cxl.rest.executor.ready_queue
                || panicking
                || cxl.rest.executor.final_stopped)
              assert_failed)
            _ e in
        let (stopped, stops, e2) =
          parts_of_ok (stop_simulation drop_future on_stop on_start iterate cxl) _ e1 in
        let (emptied, dropped, e3) =
          parts_of_ok (drop_all (suc (length stopped.simulators)) stopped) _ e2 in
        let (events, finals, e4) =
          parts_of_ok (finalize finalize_events emptied.rest.event_handler) _ e3 in
        cc

    ends_in :
        (panicking finalize_events : Bool) (cx : SimCx S F H) (cxu : SimCxu)
        {out : Option SimulationEnd} {cx' : SimCx S F H}
        → cx.once_cell ≡ some cxu
        → destroy_held panicking finalize_events cx ≡ ok (out, cx')
        → (cx'.context ≡ none) × (cx'.once_cell ≡ some cxu)
    unfolding destroy_held
    ends_in panicking finalize_events cx cxu set e = elim (Option-cases cx.context) [
      | inl empty ↦ (ground arith, ground arith)
      | inr (cxl, held) ↦ (
        ground (arith, in_context panicking finalize_events cx cxu cxl),
        ground (arith, in_context panicking finalize_events cx cxu cxl),
      )
    ]

    at_cells :
        (debug panicking finalize_events : Bool) (cx : SimCx S F H) (cxu : SimCxu)
        {out : Option SimulationEnd} {cx' : SimCx S F H}
        → cx.once_cell ≡ some cxu
        → destroy debug panicking finalize_events cx ≡ ok (out, cx')
        → (cx'.context ≡ none)
          × (cx'.once_cell ≡ some cxu)
          × (in_first_node debug cx'.once_cell ≡ ok tt)
    unfolding destroy
    at_cells debug panicking finalize_events cx cxu set e =
        let (checked, initial, e1) = parts_of_ok (in_first_node debug cx.once_cell) _ e in
        let (gone, kept) = ends_in panicking finalize_events cx cxu set e1 in
        (
          gone,
          kept,
          subst (λ (c : Option SimCxu). in_first_node debug c ≡ ok tt) (set ∙ sym kept) initial,
        )

    again :
        (debug panicking : Bool) (cx : SimCx S F H)
        → cx.context ≡ none
        → in_first_node debug cx.once_cell ≡ ok tt
        → destroy debug panicking false cx ≡ ok (none, cx)
    unfolding destroy destroy_held
    again debug panicking cx gone initial = ground arith

    -- On a thread where a simulation was installed: after `destroy` has returned, the context is gone;
    -- another `destroy`, such as that of the guard's own destructor, does nothing more; and no simulation
    -- can ever be installed on the thread again.
    pub destroy_lem :
        (debug panicking finalize_events : Bool) (cx : SimCx S F H) (cxu : SimCxu)
        {cx' : SimCx S F H} {out : Option SimulationEnd}
        → cx.once_cell ≡ some cxu
        → destroy debug panicking finalize_events cx ≡ ok (out, cx')
        → (cx'.context ≡ none)
          × (destroy debug panicking false cx' ≡ ok (none, cx'))
          × ((h : H) (start : ℕ) → install h start cx' ≡ panic unwrap_none)
    unfolding destroy install
    destroy_lem debug panicking finalize_events cx cxu {cx'} set e =
        let (gone, kept, initial) = at_cells debug panicking finalize_events cx cxu set e in
        (gone, again debug panicking cx' gone initial, λ h start. ground arith)
