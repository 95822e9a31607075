-- ===== src/Executor/Polling.antt =====
-- src/executor.rs: the two critical sections of `run_current_context`, before and after a poll.
use refault.Prelude.{
  ℕ, Bool, List, [], ◌∷◌, Option, none, some, update, Result, ok, panic, unreachable, unwrap_none,
  assert_failed, assert, ◌>>=◌, ◌>>◌, not, is_some, if◌then◌else◌,
}
use refault.Events.{EventHandler, task_run}
use refault.Executor.State.{
  TaskState, complete_ready, complete, aborted_ready, aborted, ready, waiting, TaskShared,
  TaskEntry, Executor, deref, store,
}
use refault.Executor.Tasks.{remove_task_entry}

-- What `task_id`, popped from the queue, leads to: its task is ready and was taken out of its
-- entry, or the entry of a finished or aborted task was removed. A taken task is its future with the
-- address of its `TaskShared`.
pub data Popped (F : Type 0) : Type 0 where
  run : ℕ → F → TaskShared → Executor F → Popped F
  removed : Executor F → Popped F

module _ {F : Type 0} where
  pop_in : Bool → Executor F → ℕ → TaskEntry F → TaskShared → TaskState → Result (Popped F)
  pop_in debug ex task_id entry sh ready = elim entry.task [
    | none ↦ panic unwrap_none
    | some future ↦ ok (
        run entry.shared future sh
          (record ex { tasks = update ex.tasks task_id (some (record entry { task = none })) }))
  ]
  pop_in debug ex task_id entry sh complete_ready = do
    ex' ← remove_task_entry debug (store ex entry.shared sh complete) sh.id
    ok (removed ex')
  pop_in debug ex task_id entry sh aborted_ready = do
    ex' ← remove_task_entry debug (store ex entry.shared sh aborted) sh.id
    ok (removed ex')
  pop_in debug ex task_id entry sh _ = panic unreachable

  -- One round of the inner loop, on the id that was popped.
  unfoldable pub pop_one : Bool → Executor F → ℕ → Result (Popped F)
  unfolding pop_in remove_task_entry
  pop_one debug ex task_id = elim (ex.tasks task_id) [
    | none ↦ panic unwrap_none
    | some entry ↦ do sh ← deref ex entry.shared; pop_in debug ex task_id entry sh sh.state
  ]

  module _ {H : Type 0} (handler : EventHandler H) where
    -- A ready task is reported, and waits from then on for the wake-ups of its own poll.
    unfoldable pub start :
        Executor F → H → ℕ → F → TaskShared → Result (Option (ℕ × F) × Executor F × H)
    start ex h p future sh = do
      h' ← handler.handle_event h (task_run sh.id)
      ok (some (p, future), store ex p sh waiting, h')

    -- The inner loop, on the ids in the queue.
    unfoldable pub pop_loop :
        Bool → List ℕ → Executor F → H → Result (Option (ℕ × F) × Executor F × H)
    unfolding start
    pop_loop debug [] ex h = ok (none, ex, h)
    pop_loop debug (task_id ∷ rest) ex h =
        elim (pop_one debug (record ex { ready_queue = rest }) task_id) [
          | panic e ↦ panic e
          | ok (run p future sh ex') ↦ start ex' h p future sh
          | ok (removed ex') ↦ pop_loop debug rest ex' h
        ]

    -- The first critical section: the next task to poll, if any.
    unfoldable pub next_task : Bool → Executor F → H → Result (Option (ℕ × F) × Executor F × H)
    unfolding pop_loop pop_one
    next_task debug ex h =
        if ex.final_stopped then ok (none, ex, h) else pop_loop debug ex.ready_queue ex h

-- The result of a future's `poll`, as far as the executor sees it, with the future after it.
pub data Poll (F : Type 0) : Type 0 where
  poll_ready pending : F → Poll F

module _ {F : Type 0} where
  -- `task_entry.task.replace(Some(task))`, which must find the cell empty.
  put_back : Executor F → ℕ → F → Result (Option F × Executor F)
  put_back ex id future = elim (ex.tasks id) [
    | none ↦ panic unwrap_none
    | some entry ↦ do
      assert (not (is_some entry.task)) assert_failed
      ok (
        none,
        record ex { tasks = update ex.tasks id (some (record entry { task = some future })) },
      )
  ]

  -- `Poll::Pending`: a task that was aborted meanwhile is dropped, any other goes back.
  suspend : Executor F → TaskShared → F → TaskState → Result (Option F × Executor F)
  unfolding put_back
  suspend ex sh future aborted_ready = ok (some future, ex)
  suspend ex sh future waiting = put_back ex sh.id future
  suspend ex sh future ready = put_back ex sh.id future
  suspend ex sh future _ = panic unreachable

  -- `Poll::Ready`: the entry goes now, or when the queue comes to the task.
  finish : Bool → Executor F → ℕ → TaskShared → F → TaskState → Result (Option F × Executor F)
  unfolding remove_task_entry
  finish debug ex p sh future waiting = do
    ex' ← remove_task_entry debug (store ex p sh complete) sh.id
    ok (some future, ex')
  finish debug ex p sh future ready = ok (some future, store ex p sh complete_ready)
  finish debug ex p sh future aborted_ready = ok (some future, store ex p sh complete_ready)
  finish debug ex p sh future _ = panic unreachable

  poll_in : Bool → Executor F → ℕ → TaskShared → Poll F → Result (Option F × Executor F)
  unfolding suspend finish
  poll_in debug ex p sh (poll_ready future) = finish debug ex p sh future sh.state
  poll_in debug ex p sh (pending future) = suspend ex sh future sh.state

  -- The second critical section, for the task at address `p`: the future that it drops, if any.
  unfoldable pub after_poll : Bool → Executor F → ℕ → Poll F → Result (Option F × Executor F)
  unfolding poll_in
  after_poll debug ex p result = do sh ← deref ex p; poll_in debug ex p sh result
