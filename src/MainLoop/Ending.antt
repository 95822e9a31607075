-- ===== src/MainLoop/Ending.antt =====
-- The main loop ends.
use refault.Prelude.{
  ℕ, zero, suc, ◌<◌, ◌≡◌, refl, Bool, true, false, none, inl, inr, Result, length, Returns, ok,
  panic, arith, ◌∙◌,
}
use refault.Events.{EventHandler, Event}
use refault.Executor.Polling.{Poll}
use refault.Time.Queue.{PriorityQueue, QueueLaws}
use refault.MainLoop.{World, round, run_current_context}
use refault.MainLoop.Idle.{IsIdle, run_current_context-IsIdle}
use refault.MainLoop.Program.{PollsWell, DropsWell}
use refault.MainLoop.Wakers.{Good}
use refault.MainLoop.Waiting.{Kept, pending_sleeps}
use refault.MainLoop.Rounds.{Rounded, round-Rounded}

module _ {F H Q W : Type 0} (debug : Bool) (pq : PriorityQueue Q) (laws : QueueLaws pq)
    (handler : EventHandler H) (budget : W → ℕ) (Fine : W → Type 0)
    (accepts : (h : H) (e : Event) → Returns (handler.handle_event h e))
    (poll : ℕ → F → World F H Q W → Result (Poll F × World F H Q W))
    (drop_future : F → World F H Q W → Result (World F H Q W))
    (polls : PollsWell debug pq laws budget Fine poll)
    (drops : DropsWell debug pq laws budget Fine drop_future) where
  -- With some fuel the loop returns.
  abbrev Ends : World F H Q W → Type 0
  Ends w =
      (fuel : ℕ) × (w' : World F H Q W) × (run_current_context debug pq handler poll drop_future
          fuel w
        ≡ ok w')
      × Kept debug pq laws handler budget Fine w w'

  Rounded-Ends :
      (w : World F H Q W) (r : Result (Bool × World F H Q W))
      → round debug pq handler poll drop_future w ≡ r
      → Rounded debug pq laws handler budget Fine w r
      → ((w' : World F H Q W)
          → Rounded debug pq laws handler budget Fine w (ok (true, w'))
          → Ends w')
      → Ends w
  unfolding run_current_context
  Rounded-Ends w (ok (true, w1)) e (kept, progress) rest =
      let (fuel, w', ended, (g', fine', t', same', b')) = rest w1 (kept, progress) in
      let (_, _, t, same, b) = kept in
      (suc fuel, w', ground arith, (g', fine', omega arith, same' ∙ same, b' ∙ b))
  Rounded-Ends w (ok (false, w1)) e kept rest = (suc zero, w1, ground arith, kept)
  Rounded-Ends w (panic why) e never rest = absurd never

  ends :
      (steps sleeps ready : ℕ) (w : World F H Q W)
      → Good debug pq laws none w
      → Fine w.rest
      → w.context_borrowed ≡ false
      → budget w.rest < steps
      → pending_sleeps debug pq laws handler budget Fine w < sleeps
      → length w.executor.ready_queue < ready
      → Ends w
  ends zero sleeps ready w g fine free less few short = absurd (omega arith)
  ends (suc steps) zero ready w g fine free less few short = absurd (omega arith)
  ends (suc steps) (suc sleeps) zero w g fine free less few short = absurd (omega arith)
  ends (suc steps) (suc sleeps) (suc ready) w g fine free less few short =
      Rounded-Ends w _ refl
        (round-Rounded debug pq laws handler budget Fine accepts poll drop_future polls drops w g
          fine free)
        (λ w' ((g', fine', _, _, b), progress). elim progress [
          | inl spent ↦
              ends steps (suc (pending_sleeps debug pq laws handler budget Fine w'))
                (suc (length w'.executor.ready_queue)) w' g' fine' (b ∙ free) (omega arith)
                (omega arith) (omega arith)
          | inr (kept, inl fewer) ↦
              ends (suc steps) sleeps (suc (length w'.executor.ready_queue)) w' g' fine' (b ∙ free)
                (omega arith) (omega arith) (omega arith)
          | inr (kept, inr (same, shorter)) ↦
              ends (suc steps) (suc sleeps) ready w' g' fine' (b ∙ free) (omega arith) (omega arith)
                (omega arith)
        ])

  -- From a world of the invariant, with enough fuel the loop returns. Then no sleep is pending, the
  -- simulation was stopped or no task is ready, the invariants hold, the clock did not go back, and
  -- the current node is what it was. Handlers, polls and destructors have to return and to keep the
  -- user's invariant, and each of them that does not leave the executor and the scheduler alone
  -- spends some of a budget; a destructor that the main loop runs does so while the context is
  -- borrowed, where operations that borrow it are not open to it. The queue obeys its documentation.
  pub run_current_context-ends :
      (w : World F H Q W)
      → Good debug pq laws none w
      → Fine w.rest
      → w.context_borrowed ≡ false
      → (fuel : ℕ) × (w' : World F H Q W) × (run_current_context debug pq handler poll drop_future
            fuel w
          ≡ ok w')
        × IsIdle debug pq laws handler w'
        × Kept debug pq laws handler budget Fine w w'
  run_current_context-ends w g fine free =
      let (fuel, w', ended, kept) =
        ends (suc (budget w.rest)) (suc (pending_sleeps debug pq laws handler budget Fine w))
          (suc (length w.executor.ready_queue)) w g fine free (omega arith) (omega arith)
          (omega arith) in
      (
        fuel,
        w',
        ended,
        run_current_context-IsIdle debug pq laws handler poll drop_future fuel w w' ended,
        kept,
      )
