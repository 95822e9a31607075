-- ===== src/MainLoop.antt =====
-- src/executor.rs, `run_current_context`: the main loop over tasks and time, as a whole.
pub mod Idle
pub mod UserCode
pub mod Wakers
pub mod Program
pub mod Waiting
pub mod Rounds
pub mod Ending
use refault.Prelude.{
  ℕ, zero, suc, Bool, true, false, Option, none, some, Result, ok, panic, out_of_fuel, ◌>>=◌,
}
use refault.Events.{EventHandler}
use refault.Executor.State.{Executor, deref}
use refault.Executor.Tasks.{wake}
use refault.Executor.Polling.{Poll, next_task, after_poll}
use refault.Time.Queue.{PriorityQueue}
use refault.Time.{TimeScheduler, wait_until_next_future_ready}

-- What the main loop and the code of the user act on: the executor with its queue, the event handler, the
-- scheduler, the clock and the current node of `SimCxu`, and all the rest, which is the user's.
pub record World (F H Q W : Type 0) : Type 0 where
  pub executor : Executor F
  pub event_handler : H
  pub time_scheduler : TimeScheduler Q
  pub time : ℕ
  pub current_node : ℕ
  -- whether the `RefCell` with the context is borrowed, so that an operation that borrows it panics
  pub context_borrowed : Bool
  pub rest : W

module _ {F H Q W : Type 0} (debug : Bool) (pq : PriorityQueue Q) (handler : EventHandler H) where
  -- The wait of the loop when it finds no task.
  unfoldable pub pass_time : World F H Q W → Result (Bool × World F H Q W)
  unfolding wait_until_next_future_ready
  pass_time w = do
    (advanced, t, time, h, ex) ←
        wait_until_next_future_ready pq wake handler w.time_scheduler w.time w.event_handler
          w.executor
    ok (advanced, record w { executor = ex; event_handler = h; time_scheduler = t; time = time })

  module _ (poll : ℕ → F → World F H Q W → Result (Poll F × World F H Q W))
      (drop_future : F → World F H Q W → Result (World F H Q W)) where
    -- `drop(task)`, inside of `cx.with_cx`: the context is borrowed while the destructor runs.
    unfoldable pub drop_polled : Option F → World F H Q W → Result (World F H Q W)
    drop_polled none w = ok w
    drop_polled (some future) w = do
      w' ← drop_future future (record w { context_borrowed = true })
      ok (record w' { context_borrowed = false })

    -- The poll of a task, in the scope of its node; from its `TaskShared`, here `p`, comes its waker.
    unfoldable pub poll_task : ℕ → F → World F H Q W → Result (World F H Q W)
    unfolding after_poll drop_polled
    poll_task p future w = do
      sh ← deref w.executor p
      (result, w1) ← poll p future (record w { current_node = sh.node })
      (dropped, ex) ← after_poll debug w1.executor p result
      w2 ← drop_polled dropped (record w1 { executor = ex })
      ok (record w2 { current_node = w.current_node })

    on_next : World F H Q W → Option (ℕ × F) → Result (Bool × World F H Q W)
    unfolding poll_task pass_time
    on_next w none = pass_time w
    on_next w (some (p, future)) = do w' ← poll_task p future w; ok (true, w')

    -- One round of the loop: whether it goes on.
    unfoldable pub round : World F H Q W → Result (Bool × World F H Q W)
    unfolding on_next next_task
    round w = do
      (next, ex, h) ← next_task handler debug w.executor w.event_handler
      on_next (record w { executor = ex; event_handler = h }) next

    -- `Executor::run_current_context`
    unfoldable pub run_current_context : ℕ → World F H Q W → Result (World F H Q W)
    unfolding round
    run_current_context zero w = panic out_of_fuel
    run_current_context (suc fuel) w = elim (round w) [
      | panic why ↦ panic why
      | ok (false, w') ↦ ok w'
      | ok (true, w') ↦ run_current_context fuel w'
    ]
