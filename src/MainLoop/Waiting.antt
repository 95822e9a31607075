-- ===== src/MainLoop/Waiting.antt =====
-- What the wait of the main loop comes to.
use refault.Prelude.{
  ℕ, ◌≤◌, ◌<◌, ◌≡◌, refl, sym, subst, Bool, true, false, none, inl, inr, Result, Result-cases,
  Returns, ok, panic, arith,
}
use refault.Events.{EventHandler, Event}
use refault.Executor.State.{Executor}
use refault.Executor.Tasks.{wake}
use refault.Executor.Invariant.{Inv}
use refault.Executor.Invariant.Waking.{wake-Inv}
use refault.Executor.Machine.Stability.{wake-Later}
use refault.Executor.Choosing.{Known, Lasts, Lasts-of-Later}
use refault.Time.Queue.{PriorityQueue, QueueLaws}
use refault.Time.{TimeScheduler, wait_until_next_future_ready}
use refault.Time.Wakers.{WakerOf-map, Waited, wait-Waited}
use refault.MainLoop.{World, pass_time}
use refault.MainLoop.Wakers.{Good}

module _ {F H Q W : Type 0} (debug : Bool) (pq : PriorityQueue Q) (laws : QueueLaws pq)
    (handler : EventHandler H) (budget : W → ℕ) (Fine : W → Type 0) where
  -- The size of the queue of sleeps.
  abbrev pub pending_sleeps : World F H Q W → ℕ
  pending_sleeps w = pq.len w.time_scheduler.upcoming_events

  -- The invariants hold, the clock did not go back, and the scope of every node was left.
  abbrev pub Kept : World F H Q W → World F H Q W → Type 0
  Kept w w' =
      Good debug pq laws none w'
      × Fine w'.rest
      × (w.time ≤ w'.time)
      × (w'.current_node ≡ w.current_node)
      × (w'.context_borrowed ≡ w.context_borrowed)

  -- What the wait comes to.
  abbrev pub AtRest : World F H Q W → Result (Bool × World F H Q W) → Type 0
  AtRest w (ok (true, w')) =
      Kept w w' × (budget w'.rest ≡ budget w.rest) × (pending_sleeps w' < pending_sleeps w)
  AtRest w (ok (false, w')) = Kept w w'
  AtRest w (panic why) = ⊥

  module _ (accepts : (h : H) (e : Event) → Returns (handler.handle_event h e)) where
    wake-Known : (e : Executor F) (q : ℕ) → Known e q → (e' : Executor F) × (wake e q ≡ ok e')
    unfolding wake
    wake-Known e q known = elim (Result-cases (wake e q)) [
      | inl (e', woken) ↦ (e', woken)
      | inr (why, raised) ↦ ground arith
    ]

    wakes :
        (ex e : Executor F) (q : ℕ)
        → Inv none e × Lasts ex e
        → Known ex q
        → (e' : Executor F) × (wake e q ≡ ok e') × (Inv none e' × Lasts ex e')
    wakes ex e q (v, l) known =
        let (e', woken) = wake-Known e q (l q known) in
        (
          e',
          woken,
          (
            wake-Inv q v woken,
            λ p there. Lasts-of-Later e e' (λ k sh at. wake-Later e k sh at q woken) p (l p there),
          ),
        )

    module _ (w : World F H Q W) (g : Good debug pq laws none w) (fine : Fine w.rest) where
      abbrev Keeps : Executor F → Type 0
      Keeps e = Inv none e × Lasts w.executor e

      abbrev Passed : Result (Bool × TimeScheduler Q × ℕ × H × Executor F) → Type 0
      Passed =
          Waited pq laws wake (λ q. Known w.executor q) Keeps (wakes w.executor) w.time_scheduler
            w.time w.executor

      passed : Passed (
          wait_until_next_future_ready pq wake handler w.time_scheduler w.time w.event_handler
            w.executor)
      passed =
          wait-Waited pq laws wake (λ q. Known w.executor q) Keeps (wakes w.executor) handler
            accepts w.time_scheduler w.time w.event_handler w.executor g.timed g.wakers
            (g.executes_well, λ p there. there)

      Passed-AtRest :
          (r : Result (Bool × TimeScheduler Q × ℕ × H × Executor F))
          → wait_until_next_future_ready pq wake handler w.time_scheduler w.time w.event_handler
              w.executor
            ≡ r
          → Passed r
          → AtRest w (pass_time debug pq handler w)
      unfolding pass_time
      Passed-AtRest (ok (true, t, time, h, ex)) e (known, (v, l), shorter, timed, later) =
          let whole : pass_time debug pq handler w
              ≡ ok (
                true,
                record w { executor = ex; event_handler = h; time_scheduler = t; time = time },
              ) =
            rw (pass_time, e) refl in
          subst (AtRest w) (sym whole) (
            (
              record {
                executes_well = v;
                timed = timed;
                wakers = λ k.
                    WakerOf-map (λ p. Known w.executor p) (λ p. Known ex p) (t.sleeps k) l
                      (known k);
              },
              fine,
              later,
              refl,
              refl,
            ),
            refl,
            shorter,
          )
      Passed-AtRest (ok (false, t, time, h, ex)) e (same, still, stays) =
          let whole : pass_time debug pq handler w
              ≡ ok (
                false,
                record w { executor = ex; event_handler = h; time_scheduler = t; time = time },
              ) =
            rw (pass_time, e) refl in
          subst (AtRest w) (sym whole) (
            record {
              executes_well = rw (stays) g.executes_well;
              timed = rw (same) g.timed;
              wakers = rw (same, stays) g.wakers;
            },
            fine,
            rw (still) (omega arith),
            refl,
            refl,
          )
      Passed-AtRest (panic why) e never = absurd never

      pub pass_time-AtRest : AtRest w (pass_time debug pq handler w)
      pass_time-AtRest = Passed-AtRest _ refl passed
