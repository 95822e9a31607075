-- ===== src/Executor/Invariant.antt =====
-- The invariant of the executor between two critical sections, task by task.
pub mod Waking
pub mod Spawning
pub mod Removing
pub mod Aborting
pub mod Popping
pub mod Polling
pub mod Nodes
use refault.Prelude.{
  ℕ, zero, suc, ◌+◌, ◌≤◌, ◌<◌, ◌≡◌, refl, sym, ap, Bool, true, false, not, ◌&&◌, ◌||◌, List, [],
  ◌∷◌, ◌++◌, Option, none, some, Map, update, Result, ok, panic, Panic, count, contains, length,
  get_elem?, set, is_some, ◌==◌, if◌then◌else◌, arith, count-push, contains-insert, contains-erase,
  length-set, get_elem?-set, get_elem?-push, get_elem?-lt, ◌>>=◌, parts_of_ok, Bool-cases, inl, inr,
}
use refault.Ids.{u64_mod}
use refault.Executor.State.{
  TaskState, complete_ready, complete, aborted_ready, aborted, ready, waiting, NodeRunLevel,
  running, stopped, final_stopped, TaskShared, NodeData, TaskEntry, Executor, deref, store,
  node_tasks, new_executor,
}

-- What a task in the map is held to: whether it runs, whether its cell is full, its state, and how
-- often its id stands in the ready queue.
abbrev pub Live : Bool → Bool → TaskState → ℕ → Type 0
Live runs held ready c = (held ≡ not runs) × (c ≡ 1)
Live runs held waiting c = (held ≡ not runs) × (c ≡ 0)
Live runs held complete_ready c = (held ≡ false) × (runs ≡ false) × (c ≡ 1)
Live runs held aborted_ready c = (held ≡ false) × (c ≡ 1)
Live runs held _ c = ⊥

abbrev pub Done : TaskState → Type 0
Done complete = Unit
Done aborted = Unit
Done _ = ⊥

-- Whether the task that is being polled is `i`.
abbrev pub is_running : Option ℕ → ℕ → Bool
is_running none i = false
is_running (some r) i = r == i

nowhere :
    (i n : ℕ) → contains (node_tasks (record { run_level = running; tasks = [] } ∷ []) n) i ≡ false
nowhere i zero = refl
nowhere i (suc n) = refl

module _ {F : Type 0} where
  -- The same for an id: its entry and its shared object together.
  abbrev pub Slot : (i : ℕ) → Bool → Option (TaskEntry F) → Option TaskShared → ℕ → Type 0
  Slot i runs none none c = (runs ≡ false) × (c ≡ 0)
  Slot i runs none (some sh) c = (runs ≡ false) × (c ≡ 0) × Done sh.state × (sh.id ≡ i)
  Slot i runs (some e) none c = ⊥
  Slot i runs (some e) (some sh) c =
      Live runs (is_some e.task) sh.state c × (sh.id ≡ i) × (e.shared ≡ i)

  -- A node lists an id exactly if the id has an entry and its shared object names the node.
  abbrev pub Listed : (listed : Bool) → (n : ℕ) → Option (TaskEntry F) → Option TaskShared → Type 0
  Listed listed n (some e) (some sh) = listed ≡ (sh.node == n)
  Listed listed n _ _ = listed ≡ false

  -- The node of an entry exists.
  abbrev pub Placed : (nodes : ℕ) → Option (TaskEntry F) → Option TaskShared → Type 0
  Placed nodes (some e) (some sh) = sh.node < nodes
  Placed nodes _ _ = Unit

  -- `current` is the task that is being polled.
  pub record Inv (current : Option ℕ) (ex : Executor F) : Type 0 where
    pub slots :
        (i : ℕ) → Slot i (is_running current i) (ex.tasks i) (ex.shared i) (count i ex.ready_queue)
    pub listed :
        (i n : ℕ) → Listed (contains (node_tasks ex.nodes n) i) n (ex.tasks i) (ex.shared i)
    pub placed : (i : ℕ) → Placed (length ex.nodes) (ex.tasks i) (ex.shared i)
    pub fresh : (i : ℕ) → ex.pre_next_global_id < i → ex.shared i ≡ none
    pub bounded : ex.pre_next_global_id < u64_mod

  pub new_executor-Inv : Inv none new_executor
  unfolding new_executor
  new_executor-Inv = record {
    slots = λ i. ground arith;
    listed = λ i n. nowhere i n;
    placed = λ i. tt;
    fresh = λ i h. refl;
    bounded = omega arith;
  }
