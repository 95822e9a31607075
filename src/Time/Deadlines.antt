-- ===== src/Time/Deadlines.antt =====
-- The deadline of a `Sleep`, from its creation to its end.
use refault.Prelude.{
  ℕ, ◌≤◌, ◌<◌, ◌≡◌, Option-cases, inl, inr, Option, none, some, Result, ok, refl, subst, arith,
  ==_refl,
}
use refault.Time.Queue.{PriorityQueue, QueueLaws}
use refault.Time.{
  TimeFutureState, init, waiting, done, taken, TimeScheduler, put, new_sleep, poll_sleep, poll_in,
}
use refault.Time.Sleeping.{TInv, Polled, poll_sleep_lem}

module _ {Q : Type 0} (pq : PriorityQueue Q) where
  abbrev pub DeadlineIn : TimeScheduler Q → ℕ → ℕ → Option TimeFutureState → Type 0
  DeadlineIn t addr d none = ⊥
  DeadlineIn t addr d (some (init at)) = at ≡ d
  DeadlineIn t addr d (some (waiting waker)) = pq.get_priority t.upcoming_events addr ≡ some d
  DeadlineIn t addr d (some (done at)) = at ≡ d
  DeadlineIn t addr d (some taken) = ⊥

  -- A `Sleep` that can still be polled, and its deadline.
  abbrev pub Deadline : TimeScheduler Q → ℕ → ℕ → Type 0
  Deadline t addr d = DeadlineIn t addr d (t.sleeps addr)

module _ {Q : Type 0} (pq : PriorityQueue Q) (laws : QueueLaws pq) where
  pub new_sleep-Deadline :
      (t : TimeScheduler Q) (addr d : ℕ) → Deadline pq (new_sleep pq t addr d) addr d
  unfolding new_sleep
  new_sleep-Deadline t addr d = rw (==_refl addr) refl

  module _ (t : TimeScheduler Q) (addr waker d : ℕ) (v : TInv pq t) where
    Passes : Result (Option ℕ × TimeScheduler Q) → Type 0
    Passes r = (t' : TimeScheduler Q) × (r ≡ ok (some d, t'))

    passed_in :
        (s : Option TimeFutureState)
        → t.sleeps addr ≡ s
        → DeadlineIn pq t addr d s
        → d ≤ t.now
        → Passes (poll_sleep pq t addr waker)
    unfolding poll_sleep poll_in Passes
    passed_in none e h late = absurd h
    passed_in (some (init at)) e h late = (put pq t addr taken, ground arith)
    passed_in (some (waiting w)) e h late = absurd (ground (arith, v addr))
    passed_in (some (done at)) e h late = (put pq t addr (done at), ground arith)
    passed_in (some taken) e h late = absurd h

    abbrev Waits : Result (Option ℕ × TimeScheduler Q) → Type 0
    Waits r =
        (t' : TimeScheduler Q) × (r ≡ ok (none, t'))
        × (t'.now ≡ t.now)
        × Deadline pq t' addr d
        × TInv pq t'

    waits_in :
        (s : Option TimeFutureState)
        → t.sleeps addr ≡ s
        → DeadlineIn pq t addr d s
        → t.now < d
        → (t' : TimeScheduler Q) × (poll_sleep pq t addr waker ≡ ok (none, t'))
          × (t'.now ≡ t.now)
          × Deadline pq t' addr d
    unfolding poll_sleep poll_in
    waits_in none e h early = absurd h
    waits_in (some (init at)) e h early = (
      record (put pq t addr (waiting waker)) {
        upcoming_events = pq.push t.upcoming_events addr at;
      },
      ground arith,
      refl,
      rw (==_refl addr) (ground (arith, laws.get-push t.upcoming_events addr at addr)),
    )
    waits_in (some (waiting w)) e h early =
        (put pq t addr (waiting waker), ground arith, refl, rw (==_refl addr) h)
    waits_in (some (done at)) e h early =
        elim (Option-cases (pq.get_priority t.upcoming_events addr)) [
          | inl no_entry ↦ absurd (ground (arith, v addr))
          | inr (other, entry) ↦ absurd (ground (arith, v addr))
        ]
    waits_in (some taken) e h early = absurd h

    -- Polled from its deadline on, a `Sleep` is ready with it.
    pub poll_sleep-Passed :
        Deadline pq t addr d
        → d ≤ t.now
        → (t' : TimeScheduler Q) × (poll_sleep pq t addr waker ≡ ok (some d, t'))
    unfolding Passes
    poll_sleep-Passed h late = passed_in (t.sleeps addr) refl h late

    -- Polled before, it is pending, at the same instant, with the same deadline.
    pub poll_sleep-Waits : Deadline pq t addr d → t.now < d → Waits (poll_sleep pq t addr waker)
    poll_sleep-Waits h early =
        let (t', e, same, kept) = waits_in (t.sleeps addr) refl h early in
        let polled =
          subst (Polled pq laws t addr waker) e (poll_sleep_lem pq laws t addr waker v) in
        let (entry, state, inv) = polled in (t', e, same, kept, inv)
