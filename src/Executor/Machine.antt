-- ===== src/Executor/Machine.antt =====
-- The executor under any program: the operations of src/executor.rs in any order in which the main
-- loop and user code can call them. Futures, their destructors and the simulators' callbacks act on
-- the executor only through these operations, so a program's run is a sequence of steps.
pub mod Safety
pub mod Stability
pub mod Ending
pub mod Order
use refault.Prelude.{ℕ, Bool, true, false, ◌≡◌, List, ◌∷◌, Option, some, none, ok}
use refault.Ids.{new_id, new_range, IdRange}
use refault.Executor.State.{Executor, TaskShared, store, waiting, new_executor}
use refault.Executor.Tasks.{wake, spawn, abort_local}
use refault.Executor.Polling.{Poll, run, removed, pop_one, after_poll}
use refault.Executor.Nodes.{push_new_node, mark_stopped, mark_started}

-- The executor, and the task that the main loop is polling.
pub record Machine (F : Type 0) : Type 0 where
  pub current : Option ℕ
  pub executor : Executor F

module _ {F : Type 0} where
  abbrev pub pop_front : Executor F → List ℕ → Executor F
  pop_front ex rest = record ex { ready_queue = rest }

  -- What user code or the main loop does to the executor while `current` stays as it is.
  pub data Call (debug : Bool) (ex ex' : Executor F) : Type 0 where
    wakes : (p : ℕ) → wake ex p ≡ ok ex' → Call debug ex ex'
    spawns :
        (node : ℕ) (future : F) (id : ℕ)
        → spawn debug ex node future ≡ ok (id, ex')
        → Call debug ex ex'
    aborts :
        (id : ℕ) (dropped : Option F) → abort_local ex id ≡ ok (dropped, ex') → Call debug ex ex'
    creates_node : (id : ℕ) → push_new_node ex ≡ ok (id, ex') → Call debug ex ex'
    marks_stopped :
        (node : ℕ) (is_final was_running : Bool)
        → mark_stopped ex node is_final ≡ ok (was_running, ex')
        → Call debug ex ex'
    marks_started :
        (node : ℕ) (was_running : Bool)
        → mark_started ex node ≡ ok (was_running, ex')
        → Call debug ex ex'
    stops_simulation : ex' ≡ record ex { final_stopped = true } → Call debug ex ex'
    takes_id :
        (id after : ℕ)
        → new_id debug ex.pre_next_global_id ≡ ok (id, after)
        → ex' ≡ record ex { pre_next_global_id = after }
        → Call debug ex ex'

  pub data Step (debug : Bool) (s t : Machine F) : Type 0 where
    calls : Call debug s.executor t.executor → t.current ≡ s.current → Step debug s t
    -- the main loop pops a ready task and begins to poll it
    runs :
        (k : ℕ) (rest : List ℕ) (p : ℕ) (future : F) (sh : TaskShared) (ex : Executor F)
        → s.current ≡ none
        → s.executor.final_stopped ≡ false
        → s.executor.ready_queue ≡ k ∷ rest
        → pop_one debug (pop_front s.executor rest) k ≡ ok (run p future sh ex)
        → t ≡ record { current = some p; executor = store ex p sh waiting }
        → Step debug s t
    -- the main loop pops a finished or aborted task
    removes :
        (k : ℕ) (rest : List ℕ) (ex : Executor F)
        → s.current ≡ none
        → s.executor.final_stopped ≡ false
        → s.executor.ready_queue ≡ k ∷ rest
        → pop_one debug (pop_front s.executor rest) k ≡ ok (removed ex)
        → t ≡ record { current = none; executor = ex }
        → Step debug s t
    -- the poll returns
    polls :
        (p : ℕ) (result : Poll F) (dropped : Option F) (ex : Executor F)
        → s.current ≡ some p
        → after_poll debug s.executor p result ≡ ok (dropped, ex)
        → t ≡ record { current = none; executor = ex }
        → Step debug s t

  abbrev pub initial : Machine F
  initial = record { current = none; executor = new_executor }

  pub data Reach (debug : Bool) : Machine F → Type 0 where
    start : Reach debug initial
    next : {s t : Machine F} → Reach debug s → Step debug s t → Reach debug t

  -- Any number of steps.
  pub data Steps (debug : Bool) (s : Machine F) : Machine F → Type 0 where
    done : Steps debug s s
    more : {t u : Machine F} → Steps debug s t → Step debug t u → Steps debug s u

  pub Reach-Steps :
      {debug : Bool} {s t : Machine F} → Reach debug s → Steps debug s t → Reach debug t
  Reach-Steps r done = r
  Reach-Steps r (more st x) = next (Reach-Steps r st) x
