-- ===== src/AgnosticLite/Deadlines.antt =====
-- When a `Timeout` elapses.
use refault.Prelude.{
  ℕ, ◌+◌, ◌≡◌, refl, Option, none, Result, ok, ◌>>=◌, arith, ==_refl, Bool-cases, inl, inr, leb,
  if◌then◌else◌,
}
use refault.SendBind.{unwrap_node_bound, unwrap_sim_bound, node_bound, sim_bound}
use refault.Time.Queue.{PriorityQueue, QueueLaws}
use refault.Time.{TimeScheduler}
use refault.Time.Sleeping.{TInv, new_sleep-TInv}
use refault.Time.Deadlines.{Deadline, new_sleep-Deadline, poll_sleep-Passed, poll_sleep-Waits}
use refault.AgnosticLite.{
  Timeout, elapsed, sim_node_bound, unwrap_both, timeout, timeout_at, runtime_sleep_until,
  poll_timeout, after_inner, after_sleep,
}

unwrap_own :
    {T : Type 0} (anchor current : ℕ) (value : T)
    → unwrap_both anchor current (sim_node_bound anchor current value) ≡ ok value
unfolding unwrap_both sim_node_bound unwrap_sim_bound unwrap_node_bound sim_bound node_bound
unwrap_own anchor current value = rw (==_refl anchor, ==_refl current) refl

module _ {Q : Type 0} (pq : PriorityQueue Q) (laws : QueueLaws pq) (anchor current : ℕ)
    {F O : Type 0}
    (poll_fut : F → ℕ → TimeScheduler Q → Result (Option O × F × TimeScheduler Q)) where
  -- A timeout of its own simulation and node, with a sleep that can be polled until its deadline.
  abbrev pub Pending : Timeout F → TimeScheduler Q → (addr deadline : ℕ) → Type 0
  Pending this t addr deadline =
      (this.sleep ≡ sim_node_bound anchor current addr) × TInv pq t × Deadline pq t addr deadline

  -- A new timeout has the present instant plus the duration for its deadline.
  pub timeout-Pending :
      (t : TimeScheduler Q) (addr duration : ℕ) (fut : F)
      → TInv pq t
      → t.sleeps addr ≡ none
      → let made = timeout pq anchor current t addr duration fut in
        Pending made.0 made.1 addr (t.now + duration)
  unfolding timeout timeout_at runtime_sleep_until
  timeout-Pending t addr duration fut v free = (
    refl,
    new_sleep-TInv pq laws t addr (t.now + duration) v free,
    new_sleep-Deadline pq laws t addr (t.now + duration),
  )

  -- Polled from its deadline on, a timeout elapses and does not poll its future. Polled before, it polls its
  -- future once and returns what this gives; its sleep has the same deadline as before when the future
  -- is polled. The timeout is polled in the simulation and on the node that made it, and has not elapsed.
  pub poll_timeout_lem :
      (this : Timeout F) (t : TimeScheduler Q) (addr deadline waker : ℕ)
      → Pending this t addr deadline
      → if leb deadline t.now
        then ((t' : TimeScheduler Q) × (poll_timeout pq anchor current poll_fut this waker t
              ≡ ok (elapsed, this, t')))
        else ((t' : TimeScheduler Q) × (t'.now ≡ t.now)
            × Pending this t' addr deadline
            × (poll_timeout pq anchor current poll_fut this waker t ≡ (
                poll_fut this.fut waker t' >>= λ inner.
                ok (after_inner pq anchor current poll_fut this inner))))
  unfolding poll_timeout after_sleep
  poll_timeout_lem this t addr deadline waker (own, v, due) =
      elim (Bool-cases (leb deadline t.now)) [
        | inl late ↦
            let (t', e) = poll_sleep-Passed pq laws t addr waker deadline v due (ground arith) in
            rw (late) (t', rw (own, unwrap_own anchor current addr, e) refl)
        | inr early ↦
            let (t', e, same, kept, v') =
              poll_sleep-Waits pq laws t addr waker deadline v due (ground arith) in
            rw (early) (t', same, (own, v', kept), rw (own, unwrap_own anchor current addr, e) refl)
      ]
