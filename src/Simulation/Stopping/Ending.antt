-- ===== src/Simulation/Stopping/Ending.antt =====
-- Stopping a node, or the simulation, over the whole context ends what it promises to end.
use refault.Prelude.{
  ℕ, zero, suc, ◌+◌, ◌≡◌, refl, subst, Bool, true, false, List, [], ◌∷◌, Option, some, none, Result,
  Result-cases, ok, arith, ◌∙◌, contains, length, parts_of_ok, inl, inr, ◌⊎◌,
}
use refault.Executor.State.{Executor, node_tasks}
use refault.Executor.Tasks.{abort_local}
use refault.Executor.Nodes.{mark_stopped}
use refault.Executor.Invariant.{Inv}
use refault.Executor.Invariant.Nodes.{mark_stopped-Inv}
use refault.Executor.Stopping.Actions.{
  Act, stops_stopped, stops_running, Acts, rest, AbortAll, all_aborted, abort_next,
}
use refault.Executor.Stopping.Quiet.{Quiet}
use refault.Executor.Stopping.Nesting.{Act-Quiet}
use refault.Executor.Stopping.Lasting.{is_final, Acts-Lasting, AbortAll-Lasting, mark_stopped-final}
use refault.Executor.Stopping.Final.{
  Stopping, Stopping-start, Stopping-next, Stopping-AllOver, AllOver,
}
use refault.Simulation.Stopping.Notifying.{for_all_simulators-Does}
use refault.Simulators.{SimCxl, for_all_simulators}
use refault.Simulation.{Cx, on_node, node_scope}
use refault.Simulation.Stopping.{
  with_executor, drop_task, abort_task, abort_all, stop_inside, stop_node, stop_from,
  stop_simulation,
}

module _ {F : Type 0} (node : ℕ) (is_last : Bool) (ex ex1 : Executor F) (was : Bool) where
  marked_as :
      (b : Bool)
      → was ≡ b
      → mark_stopped ex node is_last ≡ ok (was, ex1)
      → mark_stopped ex node is_last ≡ ok (b, ex1)
  marked_as b same marked =
      subst (λ (x : Bool). mark_stopped ex node is_last ≡ ok (x, ex1)) same marked

  marked_last-final :
      mark_stopped ex node is_last ≡ ok (was, ex1) → is_last ≡ true → is_final ex1.nodes node ≡ true
  marked_last-final marked last =
      mark_stopped-final ex node
        (subst (λ (x : Bool). mark_stopped ex node x ≡ ok (was, ex1)) last marked)

module _ {S F H : Type 0} {debug : Bool}
    (drop_future : F → SimCxl S (Cx F H) → Result (SimCxl S (Cx F H)))
    (on_stop on_start : S → SimCxl S (Cx F H) → Result (S × SimCxl S (Cx F H)))
    (iterate : List ℕ → List ℕ)
    (drop_acts : (future : F) (cx cx' : SimCxl S (Cx F H))
      → drop_future future cx ≡ ok cx'
      → Acts F debug cx.rest.executor cx'.rest.executor)
    (stop_acts : (s s' : S) (cx cx' : SimCxl S (Cx F H))
      → on_stop s cx ≡ ok (s', cx')
      → Acts F debug cx.rest.executor cx'.rest.executor)
    (iterate_contains : (xs : List ℕ) (i : ℕ) → contains (iterate xs) i ≡ contains xs i) where
  pub drop_task-Does :
      (task : Option F) (cx cx' : SimCxl S (Cx F H))
      → drop_task drop_future task cx ≡ ok cx'
      → Acts F debug cx.rest.executor cx'.rest.executor
  unfolding drop_task
  drop_task-Does none cx cx' e = let same : cx ≡ cx' = ground arith in rw (← same) rest
  drop_task-Does (some future) cx cx' e = drop_acts future cx cx' e

  abort_all-AbortAll :
      (ids : List ℕ) (cx cx' : SimCxl S (Cx F H))
      → abort_all drop_future ids cx ≡ ok cx'
      → AbortAll F debug ids cx.rest.executor cx'.rest.executor
  unfolding abort_all abort_task
  abort_all-AbortAll [] cx cx' e = let same : cx ≡ cx' = ground arith in rw (← same) all_aborted
  abort_all-AbortAll (id ∷ ids) cx cx' e = elim (Result-cases (abort_task drop_future id cx)) [
    | inl (cx1, aborted) ↦
        let ((task, ex), local, dropped) =
          parts_of_ok (abort_local cx.rest.executor id) _ aborted in
        abort_next task local (drop_task-Does task (with_executor cx ex) cx1 dropped)
          (abort_all-AbortAll ids cx1 cx' (ground arith))
    | inr (why, raised) ↦ absurd (ground arith)
  ]

  stop_parts :
      (node : ℕ) (is_final : Bool) (cx cx' : SimCxl S (Cx F H)) (was : Bool) (ex : Executor F)
      → mark_stopped cx.rest.executor node is_final ≡ ok (was, ex)
      → stop_inside drop_future on_stop on_start iterate node is_final cx ≡ ok cx'
      → ((was ≡ false) × (cx'.rest.executor ≡ ex))
        ⊎ ((was ≡ true)
            × ((cx1 : SimCxl S (Cx F H)) × (abort_all drop_future
                    (iterate (node_tasks ex.nodes node))
                    (with_executor cx ex)
                  ≡ ok cx1)
                × (for_all_simulators false on_stop cx1 ≡ ok cx')))
  unfolding stop_inside
  stop_parts node is_final cx cx' false ex marked e = inl (refl, ground arith)
  stop_parts node is_final cx cx' true ex marked e =
      inr (refl, parts_of_ok _ _ (rw (marked, stop_inside) at e))

  stop_inside-Act :
      (node : ℕ) (is_last : Bool) (cx cx' : SimCxl S (Cx F H))
      → stop_inside drop_future on_stop on_start iterate node is_last cx ≡ ok cx'
      → Act F debug cx.rest.executor cx'.rest.executor
        × ((cur : Option ℕ)
            → Inv cur cx.rest.executor
            → is_last ≡ true
            → is_final cx'.rest.executor.nodes node ≡ true)
  unfolding stop_inside
  stop_inside-Act node is_last cx cx' e =
      let ((was, ex), marked, after) =
        parts_of_ok (mark_stopped cx.rest.executor node is_last) _ e in
      elim (stop_parts node is_last cx cx' was ex marked e) [
        | inl (off, same) ↦
            let again = marked_as node is_last cx.rest.executor ex was false off marked in
            rw (same) (
              stops_stopped node is_last again,
              λ cur v last. marked_last-final node is_last cx.rest.executor ex was marked last,
            )
        | inr (on, (cx1, aborted, notified)) ↦
            let ids = iterate (node_tasks ex.nodes node) in
            let all = abort_all-AbortAll ids (with_executor cx ex) cx1 aborted in
            let told = for_all_simulators-Does debug on_stop stop_acts false cx1 cx' notified in
            (
              stops_running node is_last ids
                  (marked_as node is_last cx.rest.executor ex was true on marked)
                  (iterate_contains (node_tasks ex.nodes node)) all told,
              λ cur v last.
                  let (v2, l2) =
                    AbortAll-Lasting all
                      (mark_stopped-Inv cx.rest.executor node is_last v marked) in
                  let (v3, l3) = Acts-Lasting told v2 in
                  l3.final node (
                    l2.final node
                      (marked_last-final node is_last cx.rest.executor ex was marked last)),
            )
      ]

  stop_node-inside :
      (node : ℕ) (is_last : Bool) (cx cx' : SimCxl S (Cx F H))
      → stop_node drop_future on_stop on_start iterate node is_last cx ≡ ok cx'
      → (cx1 : SimCxl S (Cx F H)) × (stop_inside drop_future on_stop on_start iterate node is_last
            (on_node cx node)
          ≡ ok cx1)
        × (cx'.rest.executor ≡ cx1.rest.executor)
        × (cx'.rest.current_node ≡ cx.rest.current_node)
  unfolding stop_node node_scope
  stop_node-inside node is_last cx cx' e =
      let (cx1, stopped, back) =
        parts_of_ok
          (stop_inside drop_future on_stop on_start iterate node is_last (on_node cx node)) _ e in
      (cx1, stopped, ground arith, ground arith)

  pub stop_node-Act :
      (node : ℕ) (is_last : Bool) (cx cx' : SimCxl S (Cx F H))
      → stop_node drop_future on_stop on_start iterate node is_last cx ≡ ok cx'
      → Act F debug cx.rest.executor cx'.rest.executor
        × ((cur : Option ℕ)
            → Inv cur cx.rest.executor
            → is_last ≡ true
            → is_final cx'.rest.executor.nodes node ≡ true)
        × (cx'.rest.current_node ≡ cx.rest.current_node)
  stop_node-Act node is_last cx cx' e =
      let (cx1, stopped, same, back) = stop_node-inside node is_last cx cx' e in
      let (act, final) = stop_inside-Act node is_last (on_node cx node) cx1 stopped in
      (rw (same) act, rw (same) final, back)

  -- After `stop_node` over the whole context, so after `NodeId::stop`, called in the executor's
  -- invariant and while every task of a node that does not run is already over, which excludes a call
  -- from within another `stop_node`: again every task of a node that does not run is over, whatever the dropped futures' destructors and the simulators did meanwhile; the
  -- executor's invariant holds, and the current node is that of the caller.
  pub stop_node_lem :
      {cur : Option ℕ} (node : ℕ) (is_last : Bool) (cx cx' : SimCxl S (Cx F H))
      → Inv cur cx.rest.executor
      → Quiet (λ _. false) cx.rest.executor
      → stop_node drop_future on_stop on_start iterate node is_last cx ≡ ok cx'
      → Inv cur cx'.rest.executor
        × Quiet (λ _. false) cx'.rest.executor
        × (cx'.rest.current_node ≡ cx.rest.current_node)
  stop_node_lem node is_last cx cx' v q e =
      let (act, _, back) = stop_node-Act node is_last cx cx' e in
      let (v', q') = Act-Quiet (λ _. false) act (v, q) in (v', q', back)

  stop_from-Stopping :
      {cur : Option ℕ} (total from n : ℕ) (cx cx' : SimCxl S (Cx F H))
      → from + n ≡ total
      → Stopping cur total from cx.rest.executor
      → stop_from drop_future on_stop on_start iterate from n cx ≡ ok cx'
      → Stopping cur total total cx'.rest.executor × (cx'.rest.current_node ≡ cx.rest.current_node)
  unfolding stop_from
  stop_from-Stopping {cur} total from zero cx cx' sum s e =
      let same : cx ≡ cx' = ground arith in
      let all : from ≡ total = omega arith in
      rw (← same) (subst (λ (k : ℕ). Stopping cur total k cx.rest.executor) all s, refl)
  stop_from-Stopping {cur} total from (suc n) cx cx' sum s e =
      elim (Result-cases (stop_node drop_future on_stop on_start iterate from true cx)) [
        | inl (cx1, stopped) ↦
            let (act, final, back) = stop_node-Act from true cx cx1 stopped in
            let (end, back') =
              stop_from-Stopping total (suc from) n cx1 cx' (omega arith)
                (Stopping-next total from s act (final cur s.inv refl)) (ground arith) in
            (end, back' ∙ back)
        | inr (why, raised) ↦ absurd (ground arith)
      ]

  -- After `stop_simulation` over the whole context, called in the executor's invariant and while every
  -- task of a node that does not run is already over, which excludes a call from within a `stop_node`:
  -- the simulation is marked as stopped, no node runs,
  -- every task that was ever spawned is over, and the current node is that of the caller, whatever
  -- the dropped futures' destructors and the simulators did meanwhile.
  pub stop_simulation_lem :
      {cur : Option ℕ} (cx cx' : SimCxl S (Cx F H))
      → Inv cur cx.rest.executor
      → Quiet (λ _. false) cx.rest.executor
      → stop_simulation drop_future on_stop on_start iterate cx ≡ ok cx'
      → AllOver cx'.rest.executor × (cx'.rest.current_node ≡ cx.rest.current_node)
  unfolding stop_simulation
  stop_simulation_lem cx cx' v q e =
      let total = length cx.rest.executor.nodes in
      let (end, back) =
        stop_from-Stopping total 0 total
          (with_executor cx (record cx.rest.executor { final_stopped = true })) cx' (omega arith)
          (Stopping-start cx.rest.executor v q) e in
      (Stopping-AllOver total cx'.rest.executor end, back)
