-- ===== src/Simulation/Stopping/Returning.antt =====
-- `stop_simulation` returns when the code of the user does.
use refault.Prelude.{
  ℕ, zero, suc, ◌+◌, ◌<◌, ◌≡◌, ◌∙◌, refl, Bool, true, false, List, [], ◌∷◌, Option, some, none,
  Result, Result-cases, ok, arith, contains, length, get_elem?-some, inl, inr, Returns,
}
use refault.Executor.State.{Executor, node_tasks}
use refault.Executor.Tasks.{abort_local}
use refault.Executor.Nodes.{mark_stopped}
use refault.Executor.Invariant.{Inv}
use refault.Executor.Invariant.Aborting.{abort_local-Inv}
use refault.Executor.Invariant.Nodes.{mark_stopped-Inv}
use refault.Executor.Stopping.Actions.{Acts}
use refault.Executor.Stopping.Lasting.{Act-Lasting, Acts-Lasting}
use refault.Simulators.{SimCxl}
use refault.Simulation.{Cx, on_node, node_scope}
use refault.Simulation.Stopping.{
  with_executor, drop_task, abort_task, abort_all, stop_inside, stop_node, stop_from,
  stop_simulation,
}
use refault.Simulation.Stopping.Ending.{drop_task-Does, stop_node-Act}
use refault.Simulation.Stopping.Slots.{AllThere, SameSlots, for_all_simulators-Returns}

abort_local-Returns :
    {F : Type 0} {cur : Option ℕ} (id : ℕ) (ex : Executor F)
    → Inv cur ex
    → Returns (abort_local ex id)
unfolding abort_local
abort_local-Returns id ex v = elim (Result-cases (abort_local ex id)) [
  | inl r ↦ r
  | inr (why, raised) ↦ absurd (ground (arith, v.slots id))
]

pub AllThere-same :
    {S : Type 0} (slots slots' : List (Option S))
    → SameSlots slots slots'
    → AllThere slots
    → AllThere slots'
AllThere-same slots slots' (size, same) all k below = same k ∙ all k (omega arith)

module _ {S F H : Type 0} {debug : Bool} {cur : Option ℕ}
    (drop_future : F → SimCxl S (Cx F H) → Result (SimCxl S (Cx F H)))
    (on_stop on_start : S → SimCxl S (Cx F H) → Result (S × SimCxl S (Cx F H)))
    (iterate : List ℕ → List ℕ)
    (drop_acts : (future : F) (cx cx' : SimCxl S (Cx F H))
      → drop_future future cx ≡ ok cx'
      → Acts F debug cx.rest.executor cx'.rest.executor)
    (stop_acts : (s s' : S) (cx cx' : SimCxl S (Cx F H))
      → on_stop s cx ≡ ok (s', cx')
      → Acts F debug cx.rest.executor cx'.rest.executor)
    (iterate_contains : (xs : List ℕ) (i : ℕ) → contains (iterate xs) i ≡ contains xs i)
    (drops : (future : F) (cx : SimCxl S (Cx F H))
      → Inv cur cx.rest.executor
      → (cx' : SimCxl S (Cx F H)) × (drop_future future cx ≡ ok cx')
        × SameSlots cx.simulators cx'.simulators)
    (stops : (s : S) (cx : SimCxl S (Cx F H))
      → Inv cur cx.rest.executor
      → (s' : S) × (cx' : SimCxl S (Cx F H)) × (on_stop s cx ≡ ok (s', cx'))
        × SameSlots cx.simulators cx'.simulators) where
  drop_task-Returns :
      (task : Option F) (cx : SimCxl S (Cx F H))
      → Inv cur cx.rest.executor
      → (cx' : SimCxl S (Cx F H)) × (drop_task drop_future task cx ≡ ok cx')
        × SameSlots cx.simulators cx'.simulators
  unfolding drop_task
  drop_task-Returns none cx v = (cx, refl, (refl, λ k. refl))
  drop_task-Returns (some future) cx v = drops future cx v

  abort_all-Returns :
      (ids : List ℕ) (cx : SimCxl S (Cx F H))
      → Inv cur cx.rest.executor
      → (cx' : SimCxl S (Cx F H)) × (abort_all drop_future ids cx ≡ ok cx')
        × SameSlots cx.simulators cx'.simulators
        × Inv cur cx'.rest.executor
  unfolding abort_all abort_task
  abort_all-Returns [] cx v = (cx, refl, (refl, λ k. refl), v)
  abort_all-Returns (id ∷ ids) cx v =
      let ((task, ex), aborted) = abort_local-Returns id cx.rest.executor v in
      let v1 = abort_local-Inv id v aborted in
      let (cx2, dropped, (size2, same2)) = drop_task-Returns task (with_executor cx ex) v1 in
      let (v2, _) =
        Acts-Lasting
          (drop_task-Does drop_future on_stop on_start iterate drop_acts stop_acts iterate_contains
            task (with_executor cx ex) cx2 dropped)
          v1 in
      let (cx', rest, (size', same'), v') = abort_all-Returns ids cx2 v2 in
      (cx', ground arith, (size' ∙ size2, λ k. same' k ∙ same2 k), v')

  notifies :
      (s : S) (cx : SimCxl S (Cx F H))
      → Inv cur cx.rest.executor
      → (s' : S) × (cx' : SimCxl S (Cx F H)) × (on_stop s cx ≡ ok (s', cx'))
        × SameSlots cx.simulators cx'.simulators
        × Inv cur cx'.rest.executor
  notifies s cx v =
      let (s', cx', called, same) = stops s cx v in
      (s', cx', called, same, (Acts-Lasting (stop_acts s s' cx cx' called) v).0)

  stop_inside-Returns :
      (node : ℕ) (is_last : Bool) (cx : SimCxl S (Cx F H))
      → Inv cur cx.rest.executor
      → AllThere cx.simulators
      → node < length cx.rest.executor.nodes
      → (cx' : SimCxl S (Cx F H)) × (stop_inside drop_future on_stop on_start iterate node is_last
            cx
          ≡ ok cx')
        × SameSlots cx.simulators cx'.simulators
  unfolding stop_inside mark_stopped
  stop_inside-Returns node is_last cx v all below =
      elim (Result-cases (mark_stopped cx.rest.executor node is_last)) [
        | inl ((true, ex), marked) ↦
            let (cx1, aborted, (size1, same1), v1) =
              abort_all-Returns (iterate (node_tasks ex.nodes node)) (with_executor cx ex)
                (mark_stopped-Inv cx.rest.executor node is_last v marked) in
            let (cx', notified, (size', same'), v') =
              for_all_simulators-Returns (λ (x : Cx F H). Inv cur x.executor) on_stop notifies false
                cx1 (AllThere-same cx.simulators cx1.simulators (size1, same1) all) v1 in
            (cx', ground arith, (size' ∙ size1, λ k. same' k ∙ same1 k))
        | inl ((false, ex), marked) ↦ (with_executor cx ex, ground arith, (refl, λ k. refl))
        | inr (why, raised) ↦
            let (d, at) = get_elem?-some cx.rest.executor.nodes node below in absurd (ground arith)
      ]

  stop_node-Returns :
      (node : ℕ) (is_last : Bool) (cx : SimCxl S (Cx F H))
      → Inv cur cx.rest.executor
      → AllThere cx.simulators
      → node < length cx.rest.executor.nodes
      → (cx' : SimCxl S (Cx F H)) × (stop_node drop_future on_stop on_start iterate node is_last cx
          ≡ ok cx')
        × SameSlots cx.simulators cx'.simulators
  unfolding stop_node node_scope
  stop_node-Returns node is_last cx v all below =
      let (cx1, stopped, same) = stop_inside-Returns node is_last (on_node cx node) v all below in
      (on_node cx1 cx.rest.current_node, ground arith, same)

  stop_from-Returns :
      (from n : ℕ) (cx : SimCxl S (Cx F H))
      → Inv cur cx.rest.executor
      → AllThere cx.simulators
      → cx.rest.executor.final_stopped ≡ true
      → from + n ≡ length cx.rest.executor.nodes
      → (cx' : SimCxl S (Cx F H)) × (stop_from drop_future on_stop on_start iterate from n cx
          ≡ ok cx')
        × SameSlots cx.simulators cx'.simulators
  unfolding stop_from
  stop_from-Returns from zero cx v all flag sum = (cx, refl, (refl, λ k. refl))
  stop_from-Returns from (suc n) cx v all flag sum =
      let (cx1, stopped, (size1, same1)) = stop_node-Returns from true cx v all (omega arith) in
      let (act, _, _) =
        stop_node-Act drop_future on_stop on_start iterate drop_acts stop_acts iterate_contains from
          true cx cx1 stopped in
      let (v1, l1) = Act-Lasting act v in
      let nodes = l1.nodes flag in
      let (cx', rest, (size', same')) =
        stop_from-Returns (suc from) n cx1 v1
          (AllThere-same cx.simulators cx1.simulators (size1, same1) all) (l1.flag flag)
          (omega arith) in
      (cx', ground arith, (size' ∙ size1, λ k. same' k ∙ same1 k))

  -- From a state of the executor's invariant, with no simulator in use, `stop_simulation` returns without
  -- any panic, and again no simulator is in use. The destructors of the dropped futures and the
  -- callbacks of the simulators have to return, reach the executor through its interface alone, and
  -- neither add a simulator nor take one away; a set's iteration visits exactly its elements.
  pub stop_simulation-Returns :
      (cx : SimCxl S (Cx F H))
      → Inv cur cx.rest.executor
      → AllThere cx.simulators
      → (cx' : SimCxl S (Cx F H)) × (stop_simulation drop_future on_stop on_start iterate cx
          ≡ ok cx')
        × SameSlots cx.simulators cx'.simulators
  unfolding stop_simulation
  stop_simulation-Returns cx v all =
      stop_from-Returns 0 (length cx.rest.executor.nodes)
        (with_executor cx (record cx.rest.executor { final_stopped = true }))
        (record {
          slots = v.slots;
          listed = v.listed;
          placed = v.placed;
          fresh = v.fresh;
          bounded = v.bounded;
        })
        all refl (omega arith)
