-- ===== src/MainLoop/Wakers.antt =====
-- The invariant of the world: that of the executor, that of the scheduler, and that each waker of a
-- sleep is one of a task.
use refault.Prelude.{ℕ, ◌≡◌, subst, Bool, Option, none, some, ok}
use refault.Executor.Invariant.{Inv}
use refault.Executor.Machine.Safety.{Call-Inv}
use refault.Executor.Machine.Ending.{Call-Later}
use refault.Executor.Choosing.{Known, Lasts-of-Later}
use refault.Time.Queue.{PriorityQueue, QueueLaws}
use refault.Time.{TimeScheduler, poll_sleep}
use refault.Time.Wakers.{
  WakerOf-map, Wakers, new_sleep-Wakers, drop_sleep-Wakers, poll_sleep-Wakers,
}
use refault.Time.Sleeping.{TInv, new_sleep-TInv, drop_sleep-TInv, Polled, poll_sleep_lem}
use refault.MainLoop.{World}
use refault.MainLoop.UserCode.{
  UserAct, executes, sleeps, polls_sleep, drops_sleep, reports, others, UserActs, done, more,
}

module _ {Q : Type 0} (pq : PriorityQueue Q) (laws : QueueLaws pq) where
  Polled-TInv :
      (t t' : TimeScheduler Q) (addr waker : ℕ) (r : Option ℕ)
      → TInv pq t
      → poll_sleep pq t addr waker ≡ ok (r, t')
      → TInv pq t'
  Polled-TInv t t' addr waker none v e =
      (subst (Polled pq laws t addr waker) e (poll_sleep_lem pq laws t addr waker v)).2
  Polled-TInv t t' addr waker (some d) v e =
      (subst (Polled pq laws t addr waker) e (poll_sleep_lem pq laws t addr waker v)).2

module _ {F H Q W : Type 0} (debug : Bool) (pq : PriorityQueue Q) (laws : QueueLaws pq) where
  -- `current` is the task that is being polled.
  pub record Good (current : Option ℕ) (w : World F H Q W) : Type 0 where
    pub executes_well : Inv current w.executor
    pub timed : TInv pq w.time_scheduler
    pub wakers : Wakers (λ p. Known w.executor p) w.time_scheduler

  UserAct-Good :
      {c : Option ℕ} (w w' : World F H Q W) → Good c w → UserAct debug pq w w' → Good c w'
  UserAct-Good w w' g (executes ex call may same) = rw (same) (record {
    executes_well = Call-Inv g.executes_well call;
    timed = g.timed;
    wakers = λ k.
        WakerOf-map (λ p. Known w.executor p) (λ p. Known ex p) (w.time_scheduler.sleeps k)
          (Lasts-of-Later w.executor ex (λ p sh there. Call-Later p sh g.executes_well there call))
          (g.wakers k);
  })
  UserAct-Good w w' g (sleeps addr deadline free same) = rw (same) (record {
    executes_well = g.executes_well;
    timed = new_sleep-TInv pq laws w.time_scheduler addr deadline g.timed free;
    wakers = new_sleep-Wakers pq (λ p. Known w.executor p) w.time_scheduler g.wakers addr deadline;
  })
  UserAct-Good w w' g (polls_sleep addr waker r t may known e same) = rw (same) (record {
    executes_well = g.executes_well;
    timed = Polled-TInv pq laws w.time_scheduler t addr waker r g.timed e;
    wakers =
        poll_sleep-Wakers pq (λ p. Known w.executor p) w.time_scheduler g.wakers addr waker r t
          known e;
  })
  UserAct-Good w w' g (drops_sleep addr may same) = rw (same) (record {
    executes_well = g.executes_well;
    timed = drop_sleep-TInv pq laws w.time_scheduler addr g.timed;
    wakers = drop_sleep-Wakers pq (λ p. Known w.executor p) w.time_scheduler g.wakers addr;
  })
  UserAct-Good w w' g (reports h may same) =
      rw (same) (record { executes_well = g.executes_well; timed = g.timed; wakers = g.wakers })
  UserAct-Good w w' g (others rest same) =
      rw (same) (record { executes_well = g.executes_well; timed = g.timed; wakers = g.wakers })

  -- Whatever code of the user does, the invariant holds after it, with the same task being polled.
  pub UserActs-Good :
      {c : Option ℕ} (w w' : World F H Q W) → Good c w → UserActs debug pq w w' → Good c w'
  UserActs-Good w w' g done = g
  UserActs-Good w w' g (more {w1} acts act) = UserAct-Good w1 w' (UserActs-Good w w1 g acts) act
