-- ===== src/Executor/State.antt =====
-- The data of src/executor.rs. A node is named by its index (`NodeId` is the index plus one).
use refault.Prelude.{
  ℕ, Bool, false, List, [], ◌∷◌, Option, none, some, Map, update, Result, ok, panic, dangling,
  get_elem?, set, ◌≡◌, ◌==◌, if◌then◌else◌, arith, get_elem?-set, get_elem?-push, get_elem?-length,
  ◌++◌,
}

-- The constants TASK_COMPLETE_READY to TASK_WAITING; a state holds no other value.
pub data TaskState : Type 0 where
  complete_ready complete aborted_ready aborted ready waiting : TaskState

pub data NodeRunLevel : Type 0 where
  running stopped final_stopped : NodeRunLevel

pub record TaskShared : Type 0 where
  pub state : TaskState
  pub id : ℕ
  pub node : ℕ

-- `tasks` is a `HashSet<Id>`.
pub record NodeData : Type 0 where
  pub run_level : NodeRunLevel
  pub tasks : List ℕ

-- `shared` is the `Arc<TaskShared>`, an address of the heap below; `task` is the cell with the boxed
-- task. Of a `Task` the model keeps its future: its own `shared` is the entry's.
pub record TaskEntry (F : Type 0) : Type 0 where
  pub shared : ℕ
  pub task : Option F

-- `Executor` with what its methods reach through `SimCx`: `ready_queue` is `ExecutorQueue`,
-- `pre_next_global_id` the counter of `SimCxu`, and `shared` the heap of all `TaskShared` objects
-- that wakers and handles point to. An object is allocated at the address that is its task's id.
pub record Executor (F : Type 0) : Type 0 where
  pub ready_queue : List ℕ
  pub tasks : Map (TaskEntry F)
  pub final_stopped : Bool
  pub nodes : List NodeData
  pub pre_next_global_id : ℕ
  pub shared : Map TaskShared

-- `ExecutorQueue::executor` on a new queue, with the counter of `ContextInstallGuard::new`.
unfoldable pub new_executor : {F : Type 0} → Executor F
new_executor = record {
  ready_queue = [];
  tasks = λ _. none;
  final_stopped = false;
  nodes = record { run_level = NodeRunLevel.running; tasks = [] } ∷ [];
  pre_next_global_id = 0;
  shared = λ _. none;
}

module _ {F : Type 0} where
  -- A read through an `Arc<TaskShared>`.
  abbrev pub deref : Executor F → ℕ → Result TaskShared
  deref ex p = elim (ex.shared p) [ none ↦ panic dangling | some sh ↦ ok sh ]

  -- `self.state.store(state)`
  abbrev pub store : Executor F → ℕ → TaskShared → TaskState → Executor F
  store ex p sh state = record ex {
    shared = update ex.shared p (some (record sh { state = state }));
  }

-- The tasks of the node with an index; none if there is no such node.
abbrev pub node_tasks : List NodeData → ℕ → List ℕ
node_tasks nodes n = elim (get_elem? nodes n) [ none ↦ [] | some d ↦ d.tasks ]

-- The tasks of each node after one node's data was replaced.
pub node_tasks-set :
    (nodes : List NodeData) (k n : ℕ) (d d' : NodeData)
    → get_elem? nodes k ≡ some d
    → node_tasks (set nodes k d') n ≡ (if k == n then d'.tasks else node_tasks nodes n)
node_tasks-set nodes k n d d' h = ground (arith, get_elem?-set nodes k n d' h)

-- The tasks of each node after an empty node was added.
pub node_tasks-push :
    (nodes : List NodeData) (n : ℕ) (level : NodeRunLevel)
    → node_tasks (nodes ++ record { run_level = level; tasks = [] } ∷ []) n ≡ node_tasks nodes n
node_tasks-push nodes n level = ground (
  arith,
  get_elem?-push nodes n (record { run_level = level; tasks = [] }),
  get_elem?-length nodes,
)
