-- ===== src/AgnosticLite/Resetting.antt =====
-- `AsyncLocalSleep::reset` of src/agnostic_lite.rs: a sleep is replaced by a new one.
use refault.Prelude.{ℕ, ◌≡◌, false, none, some, ok, panic, arith, ==_refl, ◌==◌}
use refault.SendBind.{
  NodeBound, SimBound, Dropped, returned, panicked, aborted, check_sim, node_bound, sim_bound,
  drop_node_bound,
}
use refault.Time.Queue.{PriorityQueue, QueueLaws}
use refault.Time.{TimeScheduler, init, new_sleep, drop_sleep, sleep_until}
use refault.Time.Sleeping.{TInv, new_sleep-TInv, drop_sleep-TInv}
use refault.AgnosticLite.{sim_node_bound, runtime_sleep_until}

module _ {Q : Type 0} (pq : PriorityQueue Q) (anchor current : ℕ) where
  -- The new value is written also when the destructor of the old one panics.
  written :
      SimBound (NodeBound ℕ)
      → Dropped (TimeScheduler Q)
      → Dropped (SimBound (NodeBound ℕ) × TimeScheduler Q)
  written new (returned t) = returned (new, t)
  written new (panicked t) = panicked (new, t)
  written new aborted = aborted

  -- `reset`, with the new sleep pinned at a free address; the old value is dropped in its place.
  unfoldable pub reset :
      SimBound (NodeBound ℕ)
      → TimeScheduler Q
      → (addr deadline : ℕ) → Dropped (SimBound (NodeBound ℕ) × TimeScheduler Q)
  unfolding written runtime_sleep_until drop_node_bound drop_sleep
  reset old t addr deadline =
      let (new, t1) = runtime_sleep_until pq anchor current t addr deadline in
      elim (check_sim anchor old) [
        | panic _ ↦ aborted
        | ok _ ↦ written new (drop_node_bound (λ a s. drop_sleep pq s a) current old.inner t1)
      ]

module _ {Q : Type 0} (pq : PriorityQueue Q) (laws : QueueLaws pq) (anchor current : ℕ) where
  -- In its own simulation and on its own node the reset of a sleep returns. The old sleep and its entry in
  -- the queue are gone, the new one has the new deadline, and the invariant holds.
  pub reset_lem :
      (t : TimeScheduler Q) (old addr deadline : ℕ)
      → TInv pq t
      → t.sleeps addr ≡ none
      → (old == addr) ≡ false
      → (t' : TimeScheduler Q) × (reset pq anchor current
            (sim_node_bound anchor current old)
            t
            addr
            deadline
          ≡ returned (sim_node_bound anchor current addr, t'))
        × TInv pq t'
        × (t'.sleeps old ≡ none)
        × (pq.get_priority t'.upcoming_events old ≡ none)
        × (t'.sleeps addr ≡ some (init deadline))
  unfolding reset drop_node_bound runtime_sleep_until sleep_until sim_node_bound sim_bound
      node_bound drop_sleep new_sleep
  reset_lem t old addr deadline v free other =
      let t1 = new_sleep pq t addr deadline in
      (
        drop_sleep pq t1 old,
        ground (arith, ==_refl anchor, ==_refl current),
        drop_sleep-TInv pq laws t1 old (new_sleep-TInv pq laws t addr deadline v free),
        ground (arith, ==_refl old),
        ground (arith, ==_refl old, laws.get-remove t1.upcoming_events old old),
        ground (arith, ==_refl addr),
      )
