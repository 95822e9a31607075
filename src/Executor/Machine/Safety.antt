-- ===== src/Executor/Machine/Safety.antt =====
-- The executor's own assertions hold in every run.
use refault.Prelude.{
  ℕ, ◌≡◌, sym, subst, Bool, true, List, ◌∷◌, Option, some, none, arith, Result, ok, panic,
  unreachable, unwrap_none, assert_failed, dangling,
}
use refault.Executor.State.{Executor, TaskShared}
use refault.Executor.Tasks.{wake, spawn, abort_local}
use refault.Executor.Polling.{Poll, Popped, pop_one, after_poll}
use refault.Executor.Invariant.{Inv, new_executor-Inv}
use refault.Executor.Invariant.Waking.{wake-Inv}
use refault.Executor.Invariant.Spawning.{spawn-Inv, new_id-next}
use refault.Executor.Invariant.Aborting.{abort_local-Inv}
use refault.Executor.Invariant.Nodes.{push_new_node-Inv, mark_stopped-Inv, mark_started-Inv}
use refault.Executor.Invariant.Popping.{PopPost, pop_one-Post}
use refault.Executor.Invariant.Polling.{PollPost, after_poll-Post}
use refault.Executor.Machine.{
  Machine, pop_front, Call, wakes, spawns, aborts, creates_node, marks_stopped, marks_started,
  stops_simulation, takes_id, Step, calls, runs, removes, polls, Reach, start, next,
}

-- Panics that would contradict the executor's own assumptions: `unreachable!`, an `unwrap` of
-- `None`, a failed assertion.
abbrev pub IsSafe {ℓ} : {A : Type ℓ} → Result A → Type 0
IsSafe (panic unreachable) = ⊥
IsSafe (panic unwrap_none) = ⊥
IsSafe (panic assert_failed) = ⊥
IsSafe (panic dangling) = ⊥
IsSafe _ = Unit

module _ {F : Type 0} {debug : Bool} where
  pub Call-Inv : {c : Option ℕ} {ex ex' : Executor F} → Inv c ex → Call debug ex ex' → Inv c ex'
  Call-Inv v (wakes p e) = wake-Inv p v e
  Call-Inv {ex} v (spawns node future id e) = spawn-Inv debug ex node future v e
  Call-Inv v (aborts id dropped e) = abort_local-Inv id v e
  Call-Inv {ex} v (creates_node id e) = push_new_node-Inv ex v e
  Call-Inv {ex} v (marks_stopped node is_final was e) = mark_stopped-Inv ex node is_final v e
  Call-Inv {ex} v (marks_started node was e) = mark_started-Inv ex node v e
  Call-Inv v (stops_simulation e) = rw e (record {
    slots = v.slots;
    listed = v.listed;
    placed = v.placed;
    fresh = v.fresh;
    bounded = v.bounded;
  })
  Call-Inv v (takes_id id after e eq) =
      let (_, above, below) = new_id-next debug _ v.bounded e in
      rw eq (record {
        slots = v.slots;
        listed = v.listed;
        placed = v.placed;
        fresh = λ i h. v.fresh i (omega arith);
        bounded = omega arith;
      })

  pub Step-Inv :
      {s t : Machine F} → Inv s.current s.executor → Step debug s t → Inv t.current t.executor
  Step-Inv {s} {t} v (calls c e) = subst (λ x. Inv x t.executor) (sym e) (Call-Inv v c)
  Step-Inv {s} v (runs k rest p future sh ex idle on queue e eq) =
      rw eq (subst PopPost e (pop_one-Post debug s.executor k rest (rw idle at v) queue))
  Step-Inv {s} v (removes k rest ex idle on queue e eq) =
      rw eq (subst PopPost e (pop_one-Post debug s.executor k rest (rw idle at v) queue))
  Step-Inv {s} v (polls p result dropped ex busy e eq) =
      rw eq (subst PollPost e (after_poll-Post debug s.executor p result (rw busy at v)))

  -- In every state that a run reaches the executor's invariant holds: each task has as many places
  -- in the ready queue as its state says (one or none), its future is stored exactly while it is
  -- alive and not being polled, and it is listed by its own node and no other exactly until its
  -- entry is removed.
  pub Reach-Inv : {s : Machine F} → Reach debug s → Inv s.current s.executor
  Reach-Inv start = new_executor-Inv
  Reach-Inv (next r st) = Step-Inv (Reach-Inv r) st

module _ {F : Type 0} where
  IsSafe-pop : (r : Result (Popped F)) → PopPost r → IsSafe r
  IsSafe-pop (ok x) h = tt
  IsSafe-pop (panic e) h = absurd h

  IsSafe-poll : (r : Result (Option F × Executor F)) → PollPost r → IsSafe r
  IsSafe-poll (ok x) h = tt
  IsSafe-poll (panic e) h = absurd h

  -- An operation that may be called in a state.
  pub data Op (s : Machine F) : Type 0 where
    -- through a waker, which holds the address of an object that was allocated
    wake_up : (p : ℕ) (sh : TaskShared) → s.executor.shared p ≡ some sh → Op s
    spawn_on : (node : ℕ) (future : F) → Op s
    abort_task : (id : ℕ) → Op s
    pop : (k : ℕ) (rest : List ℕ) → s.current ≡ none → s.executor.ready_queue ≡ k ∷ rest → Op s
    finish_poll : (p : ℕ) (result : Poll F) → s.current ≡ some p → Op s

  -- Whether the operation, in a debug build, keeps clear of the panics that would contradict the
  -- executor's own assumptions.
  abbrev pub OpIsSafe : (s : Machine F) → Op s → Type 0
  OpIsSafe s (wake_up p sh e) = IsSafe (wake s.executor p)
  OpIsSafe s (spawn_on node future) = IsSafe (spawn true s.executor node future)
  OpIsSafe s (abort_task id) = IsSafe (abort_local s.executor id)
  OpIsSafe s (pop k rest e queue) = IsSafe (pop_one true (pop_front s.executor rest) k)
  OpIsSafe s (finish_poll p result e) = IsSafe (after_poll true s.executor p result)

  wake-IsSafe :
      (ex : Executor F) (p : ℕ) {sh : TaskShared} → ex.shared p ≡ some sh → IsSafe (wake ex p)
  unfolding wake
  wake-IsSafe ex p e = ground arith

  spawn-IsSafe : (ex : Executor F) (node : ℕ) (future : F) → IsSafe (spawn true ex node future)
  unfolding spawn
  spawn-IsSafe ex node future = ground arith

  abort_local-IsSafe :
      {c : Option ℕ} (ex : Executor F) (id : ℕ) → Inv c ex → IsSafe (abort_local ex id)
  unfolding abort_local
  abort_local-IsSafe ex id v = ground (arith, v.slots id)

  -- In a debug build, no state that a run reaches lets an operation hit one of the executor's
  -- `unreachable!()`s, `unwrap`s or assertions: waking an allocated task, spawning, aborting any id,
  -- popping the head of the queue between polls, and ending a poll with either result.
  pub Reach-OpIsSafe : {s : Machine F} → Reach true s → (op : Op s) → OpIsSafe s op
  Reach-OpIsSafe {s} r (wake_up p sh e) = wake-IsSafe s.executor p e
  Reach-OpIsSafe {s} r (spawn_on node future) = spawn-IsSafe s.executor node future
  Reach-OpIsSafe {s} r (abort_task id) = abort_local-IsSafe s.executor id (Reach-Inv r)
  Reach-OpIsSafe {s} r (pop k rest idle queue) =
      IsSafe-pop _ (pop_one-Post true s.executor k rest (rw idle at (Reach-Inv r)) queue)
  Reach-OpIsSafe {s} r (finish_poll p result busy) =
      IsSafe-poll _ (after_poll-Post true s.executor p result (rw busy at (Reach-Inv r)))
