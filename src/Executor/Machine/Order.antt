-- ===== src/Executor/Machine/Order.antt =====
-- The ready queue is first in, first out.
use mathlib.Core.List.{append-nil, append_assoc}
use refault.Prelude.{
  ℕ, ◌≡◌, sym, ap, Bool, List, [], ◌∷◌, ◌++◌, Option, some, none, arith, ok, inl, inr, ◌⊎◌, ◌∙◌,
}
use refault.Executor.State.{Executor, TaskState, waiting, TaskShared}
use refault.Executor.Tasks.{wake, spawn, abort_local}
use refault.Executor.Polling.{Poll, run, removed, pop_one, after_poll}
use refault.Executor.Nodes.{push_new_node, mark_stopped, mark_started}
use refault.Executor.Invariant.{Inv}
use refault.Executor.Machine.{
  Machine, pop_front, Call, wakes, spawns, aborts, creates_node, marks_stopped, marks_started,
  stops_simulation, takes_id, Step, calls, runs, removes, polls, Reach, Steps, done, more,
  Reach-Steps,
}
use refault.Executor.Machine.Safety.{Reach-Inv}

-- An id is pushed for a task that waits.
abbrev if_waiting : TaskState → ℕ → List ℕ
if_waiting waiting id = id ∷ []
if_waiting _ id = []

unpushed : (q q' : List ℕ) → q' ≡ q → q' ≡ q ++ []
unpushed q q' e = e ∙ sym (append-nil q)

module _ {F : Type 0} (ex : Executor F) where
  -- What a wake of the object at an address is to push: the id of its task, if that waits.
  abbrev woken_at : ℕ → List ℕ
  woken_at p = elim (ex.shared p) [ none ↦ [] | some sh ↦ if_waiting sh.state sh.id ]

  -- What an abort of a task is to push: its id, if it has an entry and waits.
  abbrev aborted_at : ℕ → List ℕ
  aborted_at id = elim (ex.tasks id) [
    | none ↦ []
    | some en ↦ elim (ex.shared en.shared) [ none ↦ [] | some sh ↦ if_waiting sh.state id ]
  ]

module _ {F : Type 0} (ex : Executor F) {ex' : Executor F} where
  wake-queue : (p : ℕ) → wake ex p ≡ ok ex' → ex'.ready_queue ≡ ex.ready_queue ++ woken_at ex p
  unfolding wake
  wake-queue p e = ground (arith, append-nil ex.ready_queue)

  spawn-queue :
      (debug : Bool) {c : Option ℕ} (node : ℕ) (future : F) {id : ℕ}
      → Inv c ex
      → spawn debug ex node future ≡ ok (id, ex')
      → ex'.ready_queue ≡ ex.ready_queue ++ id ∷ []
  unfolding spawn
  spawn-queue debug node future v e = ground (arith, v.bounded)

  abort_local-queue :
      (id : ℕ) {dropped : Option F}
      → abort_local ex id ≡ ok (dropped, ex')
      → ex'.ready_queue ≡ ex.ready_queue ++ aborted_at ex id
  unfolding abort_local
  abort_local-queue id e = ground (arith, append-nil ex.ready_queue)

  pub after_poll-queue :
      (debug : Bool) (p : ℕ) (result : Poll F) {dropped : Option F}
      → after_poll debug ex p result ≡ ok (dropped, ex')
      → ex'.ready_queue ≡ ex.ready_queue
  unfolding after_poll
  after_poll-queue debug p result e = ground arith

  pub run-queue :
      (debug : Bool) (k q : ℕ) (future : F) (sh : TaskShared)
      → pop_one debug ex k ≡ ok (run q future sh ex')
      → ex'.ready_queue ≡ ex.ready_queue
  unfolding pop_one
  run-queue debug k q future sh e = ground arith

  pub removed-queue :
      (debug : Bool) (k : ℕ)
      → pop_one debug ex k ≡ ok (removed ex')
      → ex'.ready_queue ≡ ex.ready_queue
  unfolding pop_one
  removed-queue debug k e = ground arith

  levels-queue :
      (node : ℕ) (is_final was : Bool)
      → (mark_stopped ex node is_final ≡ ok (was, ex')) ⊎ (mark_started ex node ≡ ok (was, ex'))
      → ex'.ready_queue ≡ ex.ready_queue
  unfolding mark_stopped mark_started
  levels-queue node is_final was e = ground arith

  push_new_node-queue :
      (id : ℕ) → push_new_node ex ≡ ok (id, ex') → ex'.ready_queue ≡ ex.ready_queue
  unfolding push_new_node
  push_new_node-queue id e = ground arith

module _ {F : Type 0} {debug : Bool} where
  abbrev pushed_by_call : {ex ex' : Executor F} → Call debug ex ex' → List ℕ
  pushed_by_call {ex} (wakes p e) = woken_at ex p
  pushed_by_call (spawns node future id e) = id ∷ []
  pushed_by_call {ex} (aborts id dropped e) = aborted_at ex id
  pushed_by_call _ = []

  abbrev pushed_by : {s t : Machine F} → Step debug s t → List ℕ
  pushed_by (calls c e) = pushed_by_call c
  pushed_by _ = []

  -- The ids that a run has to push, from its steps and the states before them: for a wake or an abort
  -- that of the task, if it waits, for a spawn the new one, and nothing for any other step.
  abbrev pub pushed : {s t : Machine F} → Steps debug s t → List ℕ
  pushed done = []
  pushed (more st x) = pushed st ++ pushed_by x

  Call-queue :
      {c : Option ℕ} {ex ex' : Executor F}
      → Inv c ex
      → (call : Call debug ex ex') → ex'.ready_queue ≡ ex.ready_queue ++ pushed_by_call call
  Call-queue {ex} v (wakes p e) = wake-queue ex p e
  Call-queue {ex} v (spawns node future id e) = spawn-queue ex debug node future v e
  Call-queue {ex} v (aborts id dropped e) = abort_local-queue ex id e
  Call-queue {ex} v (creates_node id e) = unpushed _ _ (push_new_node-queue ex id e)
  Call-queue {ex} v (marks_stopped node is_final was e) =
      unpushed _ _ (levels-queue ex node is_final was (inl e))
  Call-queue {ex} v (marks_started node was e) = unpushed _ _ (levels-queue ex node was was (inr e))
  Call-queue v (stops_simulation e) = unpushed _ _ (ap (λ (x : Executor F). x.ready_queue) e)
  Call-queue v (takes_id id after e eq) = unpushed _ _ (ap (λ (x : Executor F). x.ready_queue) eq)

  abbrev pub popped_by : {s t : Machine F} → Step debug s t → List ℕ
  popped_by (calls c e) = []
  popped_by (polls p result dropped ex busy e eq) = []
  popped_by (runs k rest p future sh ex idle on queue e eq) = k ∷ []
  popped_by (removes k rest ex idle on queue e eq) = k ∷ []

  -- The ids that the main loop popped, in the order in which it did.
  abbrev pub popped : {s t : Machine F} → Steps debug s t → List ℕ
  popped done = []
  popped (more st x) = popped st ++ popped_by x

  Step-fifo :
      {s t : Machine F}
      → Inv s.current s.executor
      → (x : Step debug s t)
      → popped_by x ++ t.executor.ready_queue ≡ s.executor.ready_queue ++ pushed_by x
  Step-fifo v (calls c e) = Call-queue v c
  Step-fifo {s} {t} v (polls p result dropped ex busy e eq) =
      let kept = after_poll-queue s.executor debug p result e in
      rw append-nil (ap (λ (m : Machine F). m.executor.ready_queue) eq ∙ kept)
  Step-fifo {s} v (runs k rest p future sh ex idle on queue e eq) =
      let kept = run-queue (pop_front s.executor rest) debug k p future sh e in
      rw (append-nil, queue)
        (ap (λ (m : Machine F). k ∷ m.executor.ready_queue) eq ∙ ap (◌∷◌ k) kept)
  Step-fifo {s} v (removes k rest ex idle on queue e eq) =
      let kept = removed-queue (pop_front s.executor rest) debug k e in
      rw (append-nil, queue)
        (ap (λ (m : Machine F). k ∷ m.executor.ready_queue) eq ∙ ap (◌∷◌ k) kept)

  -- Scheduling is first in, first out: in any run on from a state that a run reaches, the ids that
  -- the main loop popped, followed by the queue at the end, are the queue at the beginning followed
  -- by the ids that its steps have to push, in their order: a wake or an abort that of its task if
  -- the task waits, a spawn the new one, and any other step none.
  pub Steps-fifo :
      {s t : Machine F}
      → Reach debug s
      → (st : Steps debug s t)
      → popped st ++ t.executor.ready_queue ≡ s.executor.ready_queue ++ pushed st
  Steps-fifo r done = simp append-nil
  Steps-fifo {s} {t} r (more {t = u} st x) =
      append_assoc (popped st) (popped_by x) t.executor.ready_queue
      ∙ ap (◌++◌ (popped st)) (Step-fifo (Reach-Inv (Reach-Steps r st)) x)
      ∙ sym (append_assoc (popped st) u.executor.ready_queue (pushed_by x))
      ∙ ap (λ (z : List ℕ). z ++ pushed_by x) (Steps-fifo r st)
      ∙ append_assoc s.executor.ready_queue (pushed st) (pushed_by x)
