-- ===== src/Time.antt =====
-- src/time.rs: `Sleep` futures and the scheduler that advances the simulated time. Instants and
-- durations are nanoseconds without an upper bound. A `Sleep` has an address, as its pinned state has.
mod Examples
pub mod Queue
pub mod Sleeping
pub mod Firing
pub mod Advancing
pub mod Deadlines
pub mod Wakers
pub mod Table
use refault.Prelude.{
  ℕ, zero, suc, ◌+◌, ◌-◌, Bool, true, false, Option, none, some, Map, update, Result, ok, panic,
  unreachable, dangling, out_of_fuel, leb, if◌then◌else◌, ◌>>=◌,
}
use refault.Events.{EventHandler, time_advanced}
use Queue.{PriorityQueue}

-- A waker is the address of the `TaskShared` that it wakes.
pub data TimeFutureState : Type 0 where
  init : (deadline : ℕ) → TimeFutureState
  waiting : (waker : ℕ) → TimeFutureState
  done : (at : ℕ) → TimeFutureState
  taken : TimeFutureState

-- `TimeScheduler`, with the states of all `Sleep`s that exist.
pub record TimeScheduler (Q : Type 0) : Type 0 where
  pub upcoming_events : Q
  pub now : ℕ
  pub sleeps : Map TimeFutureState

module _ {Q : Type 0} (pq : PriorityQueue Q) where
  -- `TimeScheduler::new`, at the instant `start`.
  unfoldable pub new_scheduler : ℕ → TimeScheduler Q
  new_scheduler start = record { upcoming_events = pq.new; now = start; sleeps = λ _. none }

  abbrev pub put : TimeScheduler Q → ℕ → TimeFutureState → TimeScheduler Q
  put t addr state = record t { sleeps = update t.sleeps addr (some state) }

  -- `Sleep::new`, pinned at a free address.
  unfoldable pub new_sleep : TimeScheduler Q → ℕ → ℕ → TimeScheduler Q
  new_sleep t addr deadline = put t addr (init deadline)

  -- `sleep_until` and `sleep`, pinned at a free address.
  unfoldable pub sleep_until : TimeScheduler Q → (addr deadline : ℕ) → TimeScheduler Q
  unfolding new_sleep
  sleep_until t addr deadline = new_sleep t addr deadline

  unfoldable pub sleep : TimeScheduler Q → (addr duration : ℕ) → TimeScheduler Q
  unfolding new_sleep
  sleep t addr duration = new_sleep t addr (t.now + duration)

  poll_in : TimeScheduler Q → ℕ → ℕ → TimeFutureState → Result (Option ℕ × TimeScheduler Q)
  poll_in t addr waker (init instant) =
      if leb instant t.now
      then ok (some instant, put t addr taken)
      else ok (
        none,
        record (put t addr (waiting waker)) {
          upcoming_events = pq.push t.upcoming_events addr instant;
        },
      )
  poll_in t addr waker (waiting old) = ok (none, put t addr (waiting waker))
  poll_in t addr waker (done at) = ok (some at, put t addr (done at))
  poll_in t addr waker taken = panic unreachable

  -- `Sleep::poll`, with the waker of the polling task: the deadline once it has passed.
  unfoldable pub poll_sleep : TimeScheduler Q → ℕ → ℕ → Result (Option ℕ × TimeScheduler Q)
  unfolding poll_in
  poll_sleep t addr waker = elim (t.sleeps addr) [
    | none ↦ panic dangling
    | some state ↦ poll_in t addr waker state
  ]

  -- The destructor of `Sleep`.
  unfoldable pub drop_sleep : TimeScheduler Q → ℕ → TimeScheduler Q
  drop_sleep t addr = record t {
    upcoming_events = pq.remove t.upcoming_events addr;
    sleeps = update t.sleeps addr none;
  }

  -- `waker.wake()` acts on the rest of the simulation, `E`.
  module _ {E : Type 0} (wake : E → ℕ → Result E) where
    fire_in :
        TimeScheduler Q → Q → ℕ → ℕ → E → Option TimeFutureState → Result (TimeScheduler Q × E)
    fire_in t queue addr deadline e (some (waiting waker)) = do
      e' ← wake e waker
      ok (record (put t addr (done deadline)) { upcoming_events = queue }, e')
    fire_in t queue addr deadline e _ = panic unreachable

    -- The body of the `while let` loop, on the popped entry.
    fire : TimeScheduler Q → Q → ℕ → ℕ → E → Result (TimeScheduler Q × E)
    unfolding fire_in
    fire t queue addr deadline e = fire_in t queue addr deadline e (t.sleeps addr)

    -- The `while let` loop; a round takes one entry out of the queue.
    unfoldable pub fire_due : ℕ → TimeScheduler Q → E → Result (TimeScheduler Q × E)
    unfolding fire
    fire_due zero t e = panic out_of_fuel
    fire_due (suc fuel) t e = elim (pq.pop_if t.upcoming_events (λ _ at. leb at t.now)) [
      | none ↦ ok (t, e)
      | some ((addr, deadline), queue) ↦ elim (fire t queue addr deadline e) [
        | ok (t', e') ↦ fire_due fuel t' e'
        | panic why ↦ panic why
      ]
    ]

    -- `wait_until_next_future_ready`: whether time was advanced, then the scheduler, the simulated
    -- time, the event handler and the rest.
    unfoldable pub wait_until_next_future_ready :
        {H : Type 0}
        → EventHandler H
        → TimeScheduler Q
        → ℕ
        → H
        → E
        → Result (Bool × TimeScheduler Q × ℕ × H × E)
    unfolding fire_due
    wait_until_next_future_ready handler t time h e = elim (pq.peek t.upcoming_events) [
      | none ↦ ok (false, t, time, h, e)
      | some (addr, next) ↦ do
        let dt = next - t.now
        h' ← handler.handle_event h (time_advanced dt)
        (t', e') ← fire_due (suc (pq.len t.upcoming_events)) (record t { now = next }) e
        ok (true, t', time + dt, h', e')
    ]
