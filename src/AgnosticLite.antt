-- ===== src/AgnosticLite.antt =====
-- src/agnostic_lite.rs and src/agnostic_lite/timeout.rs: the sleeps and timeouts of the runtime, which
-- are bound to the simulation and the node that made them (src/send_bind_util.rs).
pub mod Deadlines
pub mod Joining
pub mod Resetting
use refault.Prelude.{ℕ, ◌+◌, Option, none, some, Result, ok, panic, ◌>>=◌}
use refault.SendBind.{
  NodeBound, SimBound, node_bound, sim_bound, unwrap_node_bound, unwrap_sim_bound,
}
use refault.Time.Queue.{PriorityQueue}
use refault.Time.{TimeScheduler, sleep_until, sleep, poll_sleep}

-- `SimBound<NodeBound<T>>::from`, on the thread's anchor and the current node.
unfoldable pub sim_node_bound : {T : Type 0} → (anchor current : ℕ) → T → SimBound (NodeBound T)
unfolding sim_bound node_bound
sim_node_bound anchor current value = sim_bound anchor (node_bound current value)

-- `as_pin_mut` of both wrappers, which has the guards of `unwrap`.
unfoldable pub unwrap_both : {T : Type 0} → (anchor current : ℕ) → SimBound (NodeBound T) → Result T
unfolding unwrap_sim_bound unwrap_node_bound
unwrap_both anchor current bound = do
  on_node ← unwrap_sim_bound anchor bound
  unwrap_node_bound current on_node

-- `sleep` is the address of the pinned `Sleep`.
pub record Timeout (F : Type 0) : Type 0 where
  pub fut : F
  pub sleep : SimBound (NodeBound ℕ)

-- `Poll<Result<O, Elapsed>>`
pub data TimeoutPoll (O : Type 0) : Type 0 where
  pending elapsed : TimeoutPoll O
  finished : O → TimeoutPoll O

module _ {Q : Type 0} (pq : PriorityQueue Q) (anchor current : ℕ) where
  -- `SimRuntime::sleep_until` and `SimRuntime::sleep`, pinned at a free address.
  unfoldable pub runtime_sleep_until :
      TimeScheduler Q → (addr deadline : ℕ) → SimBound (NodeBound ℕ) × TimeScheduler Q
  unfolding sim_node_bound sleep_until
  runtime_sleep_until t addr deadline =
      (sim_node_bound anchor current addr, sleep_until pq t addr deadline)

  unfoldable pub runtime_sleep :
      TimeScheduler Q → (addr duration : ℕ) → SimBound (NodeBound ℕ) × TimeScheduler Q
  unfolding sim_node_bound sleep
  runtime_sleep t addr duration = (sim_node_bound anchor current addr, sleep pq t addr duration)

  -- `SimRuntime::yield_now`
  unfoldable pub yield_now : TimeScheduler Q → (addr : ℕ) → SimBound (NodeBound ℕ) × TimeScheduler Q
  unfolding runtime_sleep_until
  yield_now t addr = runtime_sleep_until t addr t.now

  module _ {F : Type 0} where
    -- `Timeout::timeout_at` and `Timeout::timeout`, the same as `timeout_local_at` and `timeout_local`.
    unfoldable pub timeout_at :
        TimeScheduler Q → (addr deadline : ℕ) → F → Timeout F × TimeScheduler Q
    unfolding runtime_sleep_until
    timeout_at t addr deadline fut =
        let (sleep, t') = runtime_sleep_until t addr deadline in
        (record { fut = fut; sleep = sleep }, t')

    unfoldable pub timeout : TimeScheduler Q → (addr duration : ℕ) → F → Timeout F × TimeScheduler Q
    unfolding timeout_at
    timeout t addr duration fut = timeout_at t addr (t.now + duration) fut

    -- `Timeout::poll`; `poll_fut` polls the inner future.
    module _ {O : Type 0}
        (poll_fut : F → ℕ → TimeScheduler Q → Result (Option O × F × TimeScheduler Q)) where
      unfoldable pub after_inner :
          Timeout F → Option O × F × TimeScheduler Q → TimeoutPoll O × Timeout F × TimeScheduler Q
      after_inner this (none, fut, t) = (pending, record this { fut = fut }, t)
      after_inner this (some o, fut, t) = (finished o, record this { fut = fut }, t)

      after_sleep :
          Timeout F
          → (waker : ℕ) → Option ℕ × TimeScheduler Q
          → Result (TimeoutPoll O × Timeout F × TimeScheduler Q)
      unfolding after_inner
      after_sleep this waker (some deadline, t) = ok (elapsed, this, t)
      after_sleep this waker (none, t) = do
        inner ← poll_fut this.fut waker t
        ok (after_inner this inner)

      unfoldable pub poll_timeout :
          Timeout F
          → (waker : ℕ) → TimeScheduler Q
          → Result (TimeoutPoll O × Timeout F × TimeScheduler Q)
      unfolding unwrap_both poll_sleep after_sleep
      poll_timeout this waker t = do
        addr ← unwrap_both anchor current this.sleep
        polled ← poll_sleep pq t addr waker
        after_sleep this waker polled
