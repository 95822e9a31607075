-- ===== src/MainLoop/UserCode.antt =====
-- What code of the user may do to the world: calls of the executor's interface, operations on sleeps,
-- events, and changes of its own state. It never sets the clock, and it leaves the scope of every node. Where
-- the context is borrowed, what borrows it again panics; wakers use the queue alone, and ids the counter.
use refault.Prelude.{ℕ, ◌≡◌, refl, Bool, false, Option, none, ok, ◌∙◌, ◌⊎◌}
use refault.Executor.State.{Executor}
use refault.Executor.Machine.{Call, wakes, takes_id}
use refault.Executor.Choosing.{Known}
use refault.Time.Queue.{PriorityQueue}
use refault.Time.{TimeScheduler, new_sleep, poll_sleep, drop_sleep}
use refault.MainLoop.{World}

-- A call that does without the context.
abbrev pub IsUnborrowed :
    {F : Type 0} {debug : Bool} {ex ex' : Executor F} → Call debug ex ex' → Type 0
IsUnborrowed (wakes p e) = Unit
IsUnborrowed (takes_id id after e same) = Unit
IsUnborrowed _ = ⊥

module _ {F H Q W : Type 0} (debug : Bool) (pq : PriorityQueue Q) where
  pub data UserAct (w w' : World F H Q W) : Type 0 where
    executes :
        (ex : Executor F) (call : Call debug w.executor ex)
        → (w.context_borrowed ≡ false) ⊎ IsUnborrowed call
        → w' ≡ record w { executor = ex }
        → UserAct w w'
    sleeps :
        (addr deadline : ℕ)
        → w.time_scheduler.sleeps addr ≡ none
        → w' ≡ record w { time_scheduler = new_sleep pq w.time_scheduler addr deadline }
        → UserAct w w'
    -- with the waker of a task
    polls_sleep :
        (addr waker : ℕ) (result : Option ℕ) (t : TimeScheduler Q)
        → w.context_borrowed ≡ false
        → Known w.executor waker
        → poll_sleep pq w.time_scheduler addr waker ≡ ok (result, t)
        → w' ≡ record w { time_scheduler = t }
        → UserAct w w'
    drops_sleep :
        (addr : ℕ)
        → w.context_borrowed ≡ false
        → w' ≡ record w { time_scheduler = drop_sleep pq w.time_scheduler addr }
        → UserAct w w'
    reports :
        (h : H) → w.context_borrowed ≡ false → w' ≡ record w { event_handler = h } → UserAct w w'
    others : (rest : W) → w' ≡ record w { rest = rest } → UserAct w w'

  pub data UserActs (w : World F H Q W) : World F H Q W → Type 0 where
    done : UserActs w w
    more : {w1 w2 : World F H Q W} → UserActs w w1 → UserAct w1 w2 → UserActs w w2

  UserAct-clock :
      (w w' : World F H Q W)
      → UserAct w w'
      → (w'.time ≡ w.time)
        × (w'.current_node ≡ w.current_node)
        × (w'.context_borrowed ≡ w.context_borrowed)
  UserAct-clock w w' (executes ex call may same) = rw (same) (refl, refl, refl)
  UserAct-clock w w' (sleeps addr deadline free same) = rw (same) (refl, refl, refl)
  UserAct-clock w w' (polls_sleep addr waker r t may known e same) = rw (same) (refl, refl, refl)
  UserAct-clock w w' (drops_sleep addr may same) = rw (same) (refl, refl, refl)
  UserAct-clock w w' (reports h may same) = rw (same) (refl, refl, refl)
  UserAct-clock w w' (others rest same) = rw (same) (refl, refl, refl)

  pub UserActs-clock :
      (w w' : World F H Q W)
      → UserActs w w'
      → (w'.time ≡ w.time)
        × (w'.current_node ≡ w.current_node)
        × (w'.context_borrowed ≡ w.context_borrowed)
  UserActs-clock w w' done = (refl, refl, refl)
  UserActs-clock w w' (more {w1} acts act) =
      let (t, n, b) = UserActs-clock w w1 acts in
      let (t', n', b') = UserAct-clock w1 w' act in (t' ∙ t, n' ∙ n, b' ∙ b)
