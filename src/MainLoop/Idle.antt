-- ===== src/MainLoop/Idle.antt =====
-- When the main loop ends.
use refault.Prelude.{
  ℕ, zero, suc, ◌≡◌, subst, Bool, true, false, Option-cases, none, some, inl, inr, Result,
  Result-cases, ok, arith,
}
use refault.Events.{EventHandler}
use refault.Executor.Polling.{Poll, next_task}
use refault.Executor.Choosing.{HasNone, next_task-HasNone}
use refault.Time.Queue.{PriorityQueue, QueueLaws}
use refault.Time.{wait_until_next_future_ready}
use refault.MainLoop.{World, pass_time, poll_task, on_next, round, run_current_context}

module _ {F H Q W : Type 0} (debug : Bool) (pq : PriorityQueue Q) (laws : QueueLaws pq)
    (handler : EventHandler H) where
  -- No task will be polled, and no sleep is pending.
  abbrev pub IsIdle : World F H Q W → Type 0
  IsIdle w =
      HasNone w.executor × ((k : ℕ) → pq.get_priority w.time_scheduler.upcoming_events k ≡ none)

  pass_time-ends :
      (w w' : World F H Q W)
      → pass_time debug pq handler w ≡ ok (false, w')
      → (w' ≡ w) × (pq.peek w.time_scheduler.upcoming_events ≡ none)
  unfolding pass_time wait_until_next_future_ready
  pass_time-ends w w' e = elim (Option-cases (pq.peek w.time_scheduler.upcoming_events)) [
    | inl nothing ↦ (ground arith, nothing)
    | inr ((k, at), least) ↦ ground arith
  ]

  module _ (poll : ℕ → F → World F H Q W → Result (Poll F × World F H Q W))
      (drop_future : F → World F H Q W → Result (World F H Q W)) where
    round-IsIdle :
        (w w' : World F H Q W)
        → round debug pq handler poll drop_future w ≡ ok (false, w')
        → IsIdle w'
    unfolding round on_next
    round-IsIdle w w' e = elim (Result-cases (next_task handler debug w.executor w.event_handler)) [
      | inl ((none, ex, h), found) ↦
          let (same, nothing) =
            pass_time-ends (record w { executor = ex; event_handler = h }) w' (ground arith) in
          rw (same) (
            next_task-HasNone debug handler w.executor w.event_handler ex h found,
            laws.peek-none w.time_scheduler.upcoming_events nothing,
          )
      | inl ((some (p, future), ex, h), found) ↦
          elim (Result-cases (
            poll_task debug pq handler poll drop_future p future
              (record w { executor = ex; event_handler = h }))) [
                | inl (w1, polled) ↦ ground arith
                | inr (why, raised) ↦ ground arith
              ]
      | inr (why, found) ↦ ground arith
    ]

    -- When `run_current_context` has returned, no sleep is pending any more, and the simulation was
    -- stopped or no task is ready, whatever code of the user did meanwhile.
    pub run_current_context-IsIdle :
        (fuel : ℕ) (w w' : World F H Q W)
        → run_current_context debug pq handler poll drop_future fuel w ≡ ok w'
        → IsIdle w'
    unfolding run_current_context
    run_current_context-IsIdle zero w w' e = ground arith
    run_current_context-IsIdle (suc fuel) w w' e =
        elim (Result-cases (round debug pq handler poll drop_future w)) [
          | inl ((true, w1), on) ↦ run_current_context-IsIdle fuel w1 w' (ground arith)
          | inl ((false, w1), over) ↦
              let same : w1 ≡ w' = ground arith in subst IsIdle same (round-IsIdle w w1 over)
          | inr (why, raised) ↦ ground arith
        ]
