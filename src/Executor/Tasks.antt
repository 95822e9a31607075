-- ===== src/Executor/Tasks.antt =====
-- src/executor.rs: waking, spawning, aborting and removing a task.
use refault.Prelude.{
  ℕ, Bool, not, ◌||◌, [], ◌∷◌, ◌++◌, Option, none, some, update, Result, ok, panic, unwrap_none,
  assert_failed, out_of_range, node_stopped, assert, ◌>>=◌, ◌>>◌, get_elem?, set, contains, insert,
  erase, is_some, ◌==◌,
}
use refault.Ids.{new_id}
use refault.Executor.State.{
  TaskState, aborted_ready, ready, waiting, NodeRunLevel, running, TaskShared, NodeData, TaskEntry,
  Executor, deref, store,
}

module _ {F : Type 0} where
  abbrev push_back : Executor F → ℕ → Executor F
  push_back ex id = record ex { ready_queue = ex.ready_queue ++ id ∷ [] }

  wake_in : Executor F → ℕ → TaskShared → TaskState → Executor F
  wake_in ex p sh waiting = push_back (store ex p sh ready) sh.id
  wake_in ex p sh _ = ex

  -- `TaskShared::wake_by_ref`, on the object at address `p`.
  unfoldable pub wake : Executor F → ℕ → Result (Executor F)
  unfolding wake_in
  wake ex p = do sh ← deref ex p; ok (wake_in ex p sh sh.state)

  -- `spawn` after the test of the node's run level, where `d` is the node's data.
  spawn_running : Bool → Executor F → ℕ → NodeData → F → Result (ℕ × Executor F)
  unfolding wake new_id
  spawn_running debug ex node d future = do
    (task_id, counter) ← new_id debug ex.pre_next_global_id
    let shared : TaskShared = record { state = waiting; id = task_id; node = node }
    let entry : TaskEntry F = record { shared = task_id; task = some future }
    ex' ←
        wake
          (record ex {
            pre_next_global_id = counter;
            shared = update ex.shared task_id (some shared);
            tasks = update ex.tasks task_id (some entry);
            nodes = set ex.nodes node (record d { tasks = insert task_id d.tasks });
          })
          task_id
    ok (task_id, ex')

  spawn_at : Bool → Executor F → ℕ → NodeData → F → NodeRunLevel → Result (ℕ × Executor F)
  unfolding spawn_running
  spawn_at debug ex node d future running = spawn_running debug ex node d future
  spawn_at debug ex node d future _ = panic node_stopped

  -- `Executor::spawn`: the task's id, which is also the address in its handles.
  unfoldable pub spawn : Bool → Executor F → ℕ → F → Result (ℕ × Executor F)
  unfolding spawn_at
  spawn debug ex node future = elim (get_elem? ex.nodes node) [
    | none ↦ panic out_of_range
    | some d ↦ spawn_at debug ex node d future d.run_level
  ]

  -- `Executor::remove_task_entry`; the `debug_assert`s are tests in a debug build only.
  unfoldable pub remove_task_entry : Bool → Executor F → ℕ → Result (Executor F)
  remove_task_entry debug ex task_id = elim (ex.tasks task_id) [
    | none ↦ panic unwrap_none
    | some entry ↦ do
      sh ← deref ex entry.shared
      assert (not debug || sh.id == task_id) assert_failed
      assert (not (is_some entry.task)) assert_failed
      elim (get_elem? ex.nodes sh.node) [
        | none ↦ panic out_of_range
        | some d ↦ do
          assert (not debug || contains d.tasks task_id) assert_failed
          ok (record ex {
            tasks = update ex.tasks task_id none;
            nodes = set ex.nodes sh.node (record d { tasks = erase task_id d.tasks });
          })
      ]
  ]

  -- `task_entry.task.take()`, after the state was stored.
  take_task : Executor F → ℕ → TaskEntry F → Option F × Executor F
  take_task ex task_id entry = (
    entry.task,
    record ex { tasks = update ex.tasks task_id (some (record entry { task = none })) },
  )

  abort_in : Executor F → ℕ → TaskEntry F → TaskShared → TaskState → Option F × Executor F
  unfolding take_task
  abort_in ex task_id entry sh ready =
      take_task (store ex entry.shared sh aborted_ready) task_id entry
  abort_in ex task_id entry sh waiting =
      take_task (push_back (store ex entry.shared sh aborted_ready) task_id) task_id entry
  abort_in ex task_id entry sh _ = (none, ex)

  -- `abort_local`: the task that the caller has to drop, if any.
  unfoldable pub abort_local : Executor F → ℕ → Result (Option F × Executor F)
  unfolding abort_in
  abort_local ex task_id = elim (ex.tasks task_id) [
    | none ↦ ok (none, ex)
    | some entry ↦ do sh ← deref ex entry.shared; ok (abort_in ex task_id entry sh sh.state)
  ]
