-- ===== src/Executor/Invariant/Removing.antt =====
-- Taking a task's entry out of the map and out of its node keeps the invariant.
use refault.Prelude.{
  ℕ, ◌≡◌, false, List, Option, some, none, arith, contains-erase, length-set, get_elem?, erase,
  update, set, length, contains, count, ◌==◌, if◌then◌else◌,
}
use refault.Executor.State.{
  Executor, NodeData, node_tasks-set, TaskState, TaskShared, TaskEntry, node_tasks,
}
use refault.Executor.Invariant.{Inv, Slot, is_running, Listed, Placed, Done}

module _ {F : Type 0} where
  -- The executor with another queue, after the entry of task `k` was removed.
  abbrev pub without : Executor F → List ℕ → ℕ → TaskShared → NodeData → TaskState → Executor F
  without ex queue k sh d st = record ex {
    ready_queue = queue;
    tasks = update ex.tasks k none;
    nodes = set ex.nodes sh.node (record d { tasks = erase k d.tasks });
    shared = update ex.shared k (some (record sh { state = st }));
  }

  -- The task that is removed, its shared object and its node's data, and what else changes: the
  -- queue, which loses at most this id, and the task that is being polled.
  module _ (ex : Executor F) {c : Option ℕ} (v : Inv c ex) (k : ℕ) (en : TaskEntry F)
      (sh : TaskShared) (d : NodeData) (entry : ex.tasks k ≡ some en)
      (object : ex.shared k ≡ some sh) (at : get_elem? ex.nodes sh.node ≡ some d) (c' : Option ℕ)
      (queue : List ℕ)
      (counts : (i : ℕ) → count i queue ≡ (if k == i then 0 else count i ex.ready_queue))
      (runs : (i : ℕ) → is_running c' i ≡ (if k == i then false else is_running c i))
      (st : TaskState) (done : Done st) where
    slot :
        (i : ℕ)
        → let t = without ex queue k sh d st in
          Slot i (is_running c' i) (t.tasks i) (t.shared i) (count i t.ready_queue)
    slot i = ground (arith, v.slots i, v.slots k, counts i, runs i)

    list :
        (i n : ℕ)
        → let t = without ex queue k sh d st in
          Listed (contains (node_tasks t.nodes n) i) n (t.tasks i) (t.shared i)
    list i n = ground (
      arith,
      v.listed i n,
      v.listed i sh.node,
      node_tasks-set ex.nodes sh.node n d (record d { tasks = erase k d.tasks }) at,
      contains-erase k i d.tasks,
    )

    place :
        (i : ℕ)
        → let t = without ex queue k sh d st in Placed (length t.nodes) (t.tasks i) (t.shared i)
    place i =
        ground
          (arith, v.placed i, length-set ex.nodes sh.node (record d { tasks = erase k d.tasks }))

    pub without-Inv : Inv c' (without ex queue k sh d st)
    without-Inv = record {
      slots = slot;
      listed = list;
      placed = place;
      fresh = λ i h. ground (arith, v.fresh i);
      bounded = v.bounded;
    }
