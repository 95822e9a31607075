-- ===== src/Executor/Invariant/Popping.antt =====
-- The critical section before a poll never panics, and keeps the invariant.
use refault.Prelude.{
  ℕ, ◌<◌, ◌≡◌, ap, Bool, true, List, ◌∷◌, Option, some, none, arith, get_elem?, get_elem?-some,
  update, count, ok, panic, Result, Option-cases, inl, inr, ◌⊎◌, contains, ◌==◌, if◌then◌else◌,
}
use refault.Executor.State.{
  Executor, NodeData, TaskState, complete_ready, complete, aborted_ready, aborted, ready, waiting,
  TaskShared, TaskEntry, store,
}
use refault.Executor.Polling.{Popped, run, removed, pop_one}
use refault.Executor.Invariant.{Inv}
use refault.Executor.Invariant.Removing.{without, without-Inv}

module _ {F : Type 0} where
  -- A popped id: its task was taken and will wait, or its entry is gone; and never a panic.
  abbrev pub PopPost : Result (Popped F) → Type 0
  PopPost (ok (run p future sh ex)) = Inv (some p) (store ex p sh waiting)
  PopPost (ok (removed ex)) = Inv none ex
  PopPost (panic e) = ⊥

  module _ (debug : Bool) (ex : Executor F) (k : ℕ) (en : TaskEntry F) (sh : TaskShared)
      (d : NodeData) (entry : ex.tasks k ≡ some en) (object : ex.shared k ≡ some sh)
      (at : get_elem? ex.nodes sh.node ≡ some d) where
    -- The entry's cell refilled or emptied, and the queue and the state of the shared object set.
    abbrev changed : List ℕ → Option F → TaskState → Executor F
    changed queue task st = record ex {
      ready_queue = queue;
      tasks = update ex.tasks k (some (record en { task = task }));
      shared = update ex.shared k (some (record sh { state = st }));
    }

    module _ (v : Inv none ex) (rest : List ℕ) (queue : ex.ready_queue ≡ k ∷ rest) where
      counts : (i : ℕ) → count i rest ≡ (if k == i then 0 else count i ex.ready_queue)
      counts i = ground (arith, ap (count i) queue, ap (count k) queue, v.slots k)

      listed_k : contains d.tasks k ≡ true
      listed_k = ground (arith, v.listed k sh.node)

      pop_run :
          (future : F)
          → sh.state ≡ ready
          → en.task ≡ some future
          → pop_one debug (record ex { ready_queue = rest }) k
            ≡ ok (
                run k future sh (record ex {
                  ready_queue = rest;
                  tasks = update ex.tasks k (some (record en { task = none }));
                }))
      unfolding pop_one
      pop_run future st held = ground (arith, v.slots k)

      pop_complete :
          sh.state ≡ complete_ready
          → pop_one debug (record ex { ready_queue = rest }) k
            ≡ ok (removed (without ex rest k sh d complete))
      unfolding pop_one
      pop_complete st = ground (arith, v.slots k, listed_k)

      pop_aborted :
          sh.state ≡ aborted_ready
          → pop_one debug (record ex { ready_queue = rest }) k
            ≡ ok (removed (without ex rest k sh d aborted))
      unfolding pop_one
      pop_aborted st = ground (arith, v.slots k, listed_k)

      pop_cases :
          ((f : F) × (sh.state ≡ ready) × (en.task ≡ some f))
          ⊎ (sh.state ≡ complete_ready)
          ⊎ (sh.state ≡ aborted_ready)
      pop_cases = ground (arith, v.slots k, ap (count k) queue)

      run-Inv : sh.state ≡ ready → Inv (some k) (changed rest none waiting)
      run-Inv st = record {
        slots = λ i. ground (arith, v.slots i, v.slots k, counts i);
        listed = λ i n. ground (arith, v.listed i n);
        placed = λ i. ground (arith, v.placed i);
        fresh = λ i h. ground (arith, v.fresh i);
        bounded = v.bounded;
      }

      pop_known : PopPost (pop_one debug (record ex { ready_queue = rest }) k)
      pop_known = elim pop_cases [
        | inl (future, st, held) ↦ rw (pop_run future st held) (run-Inv st)
        | inr (inl st) ↦ rw (pop_complete st) (
            without-Inv ex v k en sh d entry object at none rest counts (λ i. ground arith) complete
              tt)
        | inr (inr st) ↦ rw (pop_aborted st) (
            without-Inv ex v k en sh d entry object at none rest counts (λ i. ground arith) aborted
              tt)
      ]

  -- An id in the queue has an entry, a shared object and a node.
  queued :
      (ex : Executor F) {c : Option ℕ} (v : Inv c ex) (k : ℕ)
      → 0 < count k ex.ready_queue
      → (en : TaskEntry F) × (sh : TaskShared) × (d : NodeData) × (ex.tasks k ≡ some en)
        × (ex.shared k ≡ some sh)
        × (get_elem? ex.nodes sh.node ≡ some d)
  queued ex v k h = elim (Option-cases (ex.tasks k)) [
    | inl e ↦ absurd (ground (arith, v.slots k))
    | inr (en, e) ↦ elim (Option-cases (ex.shared k)) [
      | inl o ↦ absurd (ground (arith, v.slots k))
      | inr (sh, o) ↦
          let (d, at) = get_elem?-some ex.nodes sh.node (ground (arith, v.placed k)) in
          (en, sh, d, e, o, at)
    ]
  ]

  pub pop_one-Post :
      (debug : Bool) (ex : Executor F) (k : ℕ) (rest : List ℕ)
      → Inv none ex
      → ex.ready_queue ≡ k ∷ rest
      → PopPost (pop_one debug (record ex { ready_queue = rest }) k)
  pop_one-Post debug ex k rest v queue =
      let (en, sh, d, e, o, at) = queued ex v k (ground (arith, ap (count k) queue)) in
      pop_known debug ex k en sh d e o at v rest queue
