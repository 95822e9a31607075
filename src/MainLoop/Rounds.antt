-- ===== src/MainLoop/Rounds.antt =====
-- One round of the main loop, for handlers, polls and drops that return.
use refault.Prelude.{
  ℕ, ◌<◌, ◌≡◌, ◌∙◌, refl, sym, subst, Bool, true, false, Option, Option-cases, none, some, inl, inr,
  ◌⊎◌, Result, Result-cases, length, Returns, ok, panic, arith,
}
use refault.Events.{EventHandler, Event}
use refault.Executor.State.{Executor, TaskShared}
use refault.Executor.Polling.{Poll, next_task, after_poll}
use refault.Executor.Invariant.{Inv}
use refault.Executor.Invariant.Polling.{PollPost, after_poll-Post}
use refault.Executor.Machine.Order.{after_poll-queue}
use refault.Executor.Machine.Stability.{after_poll-Later}
use refault.Executor.Choosing.{
  Known, Lasts, Lasts-of-Later, NextPost, next_task-NextPost, next_task-shorter,
}
use refault.Time.Queue.{PriorityQueue, QueueLaws}
use refault.Time.Wakers.{WakerOf-map}
use refault.MainLoop.{World, pass_time, drop_polled, poll_task, on_next, round}
use refault.MainLoop.Waiting.{pending_sleeps, Kept, AtRest, pass_time-AtRest}
use refault.MainLoop.Program.{PollsWell, DropsWell, Calm, Calm-of-Spends, Calm-trans}
use refault.MainLoop.UserCode.{UserActs-clock}
use refault.MainLoop.Wakers.{Good, UserActs-Good}

module _ {F H Q W : Type 0} (debug : Bool) (pq : PriorityQueue Q) (laws : QueueLaws pq)
    (handler : EventHandler H) (budget : W → ℕ) (Fine : W → Type 0) where
  -- Some budget was spent, or without any a sleep has gone, or also without any the queue is shorter.
  abbrev pub Progress : World F H Q W → World F H Q W → Type 0
  Progress w w' =
      (budget w'.rest < budget w.rest)
      ⊎ ((budget w'.rest ≡ budget w.rest)
          × ((pending_sleeps debug pq laws handler budget Fine w'
                < pending_sleeps debug pq laws handler budget Fine w)
              ⊎ ((pending_sleeps debug pq laws handler budget Fine w'
                    ≡ pending_sleeps debug pq laws handler budget Fine w)
                  × (length w'.executor.ready_queue < length w.executor.ready_queue))))

  -- What one round comes to.
  abbrev pub Rounded : World F H Q W → Result (Bool × World F H Q W) → Type 0
  Rounded w (ok (true, w')) = Kept debug pq laws handler budget Fine w w' × Progress w w'
  Rounded w (ok (false, w')) = Kept debug pq laws handler budget Fine w w'
  Rounded w (panic why) = ⊥

  AtRest-Rounded :
      (w : World F H Q W) (ex : Executor F) (h : H) (r : Result (Bool × World F H Q W))
      → AtRest debug pq laws handler budget Fine (record w { executor = ex; event_handler = h }) r
      → Rounded w r
  AtRest-Rounded w ex h (ok (true, w')) (kept, same, fewer) = (kept, inr (same, inl fewer))
  AtRest-Rounded w ex h (ok (false, w')) kept = kept
  AtRest-Rounded w ex h (panic why) never = never

  module _ (accepts : (h : H) (e : Event) → Returns (handler.handle_event h e)) where
    module _ (poll : ℕ → F → World F H Q W → Result (Poll F × World F H Q W))
        (drop_future : F → World F H Q W → Result (World F H Q W))
        (polls : PollsWell debug pq laws budget Fine poll)
        (drops : DropsWell debug pq laws budget Fine drop_future) where
      drops_some :
          (future : F) (w w' : World F H Q W)
          → drop_future future (record w { context_borrowed = true }) ≡ ok w'
          → drop_polled debug pq handler poll drop_future (some future) w
            ≡ ok (record w' { context_borrowed = false })
      unfolding drop_polled
      drops_some future w w' e = rw (drop_polled, e) refl

      drop_polled-Good :
          (dropped : Option F) (w : World F H Q W)
          → Good debug pq laws none w
          → Fine w.rest
          → w.context_borrowed ≡ false
          → (w' : World F H Q W) × (drop_polled debug pq handler poll drop_future dropped w ≡ ok w')
            × Good debug pq laws none w'
            × Fine w'.rest
            × (w'.time ≡ w.time)
            × (w'.context_borrowed ≡ w.context_borrowed)
            × Calm debug pq laws budget Fine w w'
      unfolding drop_polled
      drop_polled-Good none w g fine free = (w, refl, g, fine, refl, refl, inr (refl, refl, refl))
      drop_polled-Good (some future) w g fine free =
          let inside : World F H Q W = record w { context_borrowed = true } in
          let g' : Good debug pq laws none inside = record {
            executes_well = g.executes_well;
            timed = g.timed;
            wakers = g.wakers;
          } in
          let (w', e, (acts, fine', spends)) = drops future inside g' refl fine in
          let g2 = UserActs-Good debug pq laws inside w' g' acts in
          (
            record w' { context_borrowed = false },
            drops_some future w w' e,
            record { executes_well = g2.executes_well; timed = g2.timed; wakers = g2.wakers },
            fine',
            (UserActs-clock debug pq inside w' acts).0,
            sym free,
            Calm-of-Spends debug pq laws budget Fine inside w' spends,
          )

      after_poll-Good :
          (p : ℕ) (r : Poll F) (w : World F H Q W)
          → Good debug pq laws (some p) w
          → (dropped : Option F) × (ex : Executor F) × (after_poll debug w.executor p r
              ≡ ok (dropped, ex))
            × Good debug pq laws none (record w { executor = ex })
            × Calm debug pq laws budget Fine w (record w { executor = ex })
      after_poll-Good p r w g = elim (Result-cases (after_poll debug w.executor p r)) [
        | inl ((dropped, ex), e) ↦ (
          dropped,
          ex,
          e,
          record {
            executes_well = subst PollPost e (after_poll-Post debug w.executor p r g.executes_well);
            timed = g.timed;
            wakers = λ k.
                WakerOf-map (λ q. Known w.executor q) (λ q. Known ex q) (w.time_scheduler.sleeps k)
                  (Lasts-of-Later w.executor ex
                    (λ q sh at. after_poll-Later w.executor q sh at debug p r e))
                  (g.wakers k);
          },
          inr (refl, after_poll-queue w.executor debug p r e, refl),
        )
        | inr (why, raised) ↦
            absurd (subst PollPost raised (after_poll-Post debug w.executor p r g.executes_well))
      ]

      runs :
          (p : ℕ) (future : F) (w w1 w2 : World F H Q W) (sh : TaskShared) (r : Poll F)
          (dropped : Option F) (ex : Executor F)
          → w.executor.shared p ≡ some sh
          → poll p future (record w { current_node = sh.node }) ≡ ok (r, w1)
          → after_poll debug w1.executor p r ≡ ok (dropped, ex)
          → drop_polled debug pq handler poll drop_future dropped (record w1 { executor = ex })
            ≡ ok w2
          → poll_task debug pq handler poll drop_future p future w
            ≡ ok (record w2 { current_node = w.current_node })
      unfolding poll_task
      runs p future w w1 w2 sh r dropped ex there polled after ended = ground arith

      -- The poll of a task that is known.
      poll_task-Rounded :
          (p : ℕ) (future : F) (w : World F H Q W)
          → Known w.executor p
          → Good debug pq laws (some p) w
          → Fine w.rest
          → w.context_borrowed ≡ false
          → (w' : World F H Q W) × (poll_task debug pq handler poll drop_future p future w ≡ ok w')
            × Kept debug pq laws handler budget Fine w w'
            × Calm debug pq laws budget Fine w w'
      unfolding poll_task
      poll_task-Rounded p future w known g fine free = elim (Option-cases (w.executor.shared p)) [
        | inl gone ↦ ground arith
        | inr (sh, there) ↦
            let inside : World F H Q W = record w { current_node = sh.node } in
            let g' : Good debug pq laws (some p) inside = record {
              executes_well = g.executes_well;
              timed = g.timed;
              wakers = g.wakers;
            } in
            let (r, w1, polled, (acts, fine1, spends)) = polls p future inside g' free fine in
            let (t1, _, b1) = UserActs-clock debug pq inside w1 acts in
            let (dropped, ex, after, g1, calm1) =
              after_poll-Good p r w1 (UserActs-Good debug pq laws inside w1 g' acts) in
            let (w2, ended, g2, fine2, t2, b2, calm2) =
              drop_polled-Good dropped (record w1 { executor = ex }) g1 fine1 (b1 ∙ free) in
            (
              record w2 { current_node = w.current_node },
              runs p future w w1 w2 sh r dropped ex there polled after ended,
              (
                record { executes_well = g2.executes_well; timed = g2.timed; wakers = g2.wakers },
                fine2,
                ground arith,
                refl,
                b2 ∙ b1,
              ),
              Calm-trans debug pq laws budget Fine inside w1 w2
                  (Calm-of-Spends debug pq laws budget Fine inside w1 spends)
                  (Calm-trans debug pq laws budget Fine w1 (record w1 { executor = ex }) w2 calm1
                    calm2),
            )
      ]

      found-Good :
          (c : Option ℕ) (w : World F H Q W) (ex : Executor F) (h : H)
          → Good debug pq laws none w
          → Inv c ex
          → Lasts w.executor ex
          → Good debug pq laws c (record w { executor = ex; event_handler = h })
      found-Good c w ex h g v l = record {
        executes_well = v;
        timed = g.timed;
        wakers = λ k.
            WakerOf-map (λ q. Known w.executor q) (λ q. Known ex q) (w.time_scheduler.sleeps k) l
              (g.wakers k);
      }

      progress :
          (w w' : World F H Q W) (ex : Executor F) (h : H) (p : ℕ) (future : F)
          → next_task handler debug w.executor w.event_handler ≡ ok (some (p, future), ex, h)
          → Calm debug pq laws budget Fine (record w { executor = ex; event_handler = h }) w'
          → Progress w w'
      progress w w' ex h p future e (inl less) = inl less
      progress w w' ex h p future e (inr (same, queue, t)) =
          let shorter =
            next_task-shorter debug handler w.executor w.event_handler p future ex h e in
          inr (same, inr (rw (t) refl, rw (queue) shorter))

      found-Rounded :
          (w : World F H Q W) (r : Result (Option (ℕ × F) × Executor F × H))
          → Good debug pq laws none w
          → Fine w.rest
          → w.context_borrowed ≡ false
          → next_task handler debug w.executor w.event_handler ≡ r
          → NextPost debug handler accepts w.executor r
          → Rounded w (round debug pq handler poll drop_future w)
      unfolding round on_next
      found-Rounded w (ok (none, ex, h)) g fine free e (v, l) =
          let waits : round debug pq handler poll drop_future w
              ≡ pass_time debug pq handler (record w { executor = ex; event_handler = h }) =
            ground arith in
          subst (Rounded w) (sym waits) (
            AtRest-Rounded w ex h
              (pass_time debug pq handler (record w { executor = ex; event_handler = h }))
              (pass_time-AtRest debug pq laws handler budget Fine accepts
                (record w { executor = ex; event_handler = h }) (found-Good none w ex h g v l)
                fine))
      found-Rounded w (ok (some (p, future), ex, h)) g fine free e (v, l, known) =
          let (w', polled, kept, calm) =
            poll_task-Rounded p future (record w { executor = ex; event_handler = h }) known
              (found-Good (some p) w ex h g v l) fine free in
          let whole : round debug pq handler poll drop_future w ≡ ok (true, w') = ground arith in
          subst (Rounded w) (sym whole) (kept, progress w w' ex h p future e calm)
      found-Rounded w (panic why) g fine free e never = absurd never

      pub round-Rounded :
          (w : World F H Q W)
          → Good debug pq laws none w
          → Fine w.rest
          → w.context_borrowed ≡ false
          → Rounded w (round debug pq handler poll drop_future w)
      round-Rounded w g fine free =
          found-Rounded w _ g fine free refl
            (next_task-NextPost debug handler accepts w.executor w.event_handler g.executes_well)
