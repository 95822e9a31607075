-- ===== src/Time/Sleeping.antt =====
-- The invariant of the scheduler, and the operations of a `Sleep`.
use refault.Prelude.{
  ℕ, suc, ◌≤◌, ◌<◌, ◌≡◌, true, false, Option-cases, inl, inr, ◌⊎◌, Option, none, some, Bool-cases,
  Result, ok, panic, unreachable, dangling, refl, sym, subst, arith, leb,
}
use refault.Time.Queue.{PriorityQueue, QueueLaws}
use refault.Time.{
  TimeFutureState, init, waiting, done, taken, TimeScheduler, put, new_scheduler, new_sleep,
  poll_sleep, drop_sleep,
}

-- A sleep waits exactly while it has an entry in the queue, and its deadline lies ahead, or (when
-- the loop is firing) is not passed; one that is done has its deadline behind.
abbrev pub Slot : (ahead : ℕ) → (now : ℕ) → Option ℕ → Option TimeFutureState → Type 0
Slot ahead now (some d) (some (waiting w)) = ahead ≤ d
Slot ahead now (some d) _ = ⊥
Slot ahead now none (some (waiting w)) = ⊥
Slot ahead now none (some (done at)) = at ≤ now
Slot ahead now none _ = Unit

module _ {Q : Type 0} (pq : PriorityQueue Q) where
  abbrev pub Timed : (ahead : ℕ) → TimeScheduler Q → Type 0
  Timed ahead t = (k : ℕ) → Slot ahead t.now (pq.get_priority t.upcoming_events k) (t.sleeps k)

  -- Every waiting deadline lies in the future.
  abbrev pub TInv : TimeScheduler Q → Type 0
  TInv t = Timed (suc t.now) t

module _ {Q : Type 0} (pq : PriorityQueue Q) (laws : QueueLaws pq) where
  pub new_scheduler-TInv : (start : ℕ) → TInv pq (new_scheduler pq start)
  unfolding new_scheduler
  new_scheduler-TInv start k = ground (arith, laws.get-new k)

  pub new_sleep-TInv :
      (t : TimeScheduler Q) (addr deadline : ℕ)
      → TInv pq t
      → t.sleeps addr ≡ none
      → TInv pq (new_sleep pq t addr deadline)
  unfolding new_sleep
  new_sleep-TInv t addr deadline v free k = ground (arith, v k, v addr)

  pub drop_sleep-TInv :
      (t : TimeScheduler Q) (addr : ℕ) → TInv pq t → TInv pq (drop_sleep pq t addr)
  unfolding drop_sleep
  drop_sleep-TInv t addr v k = ground (arith, v k, laws.get-remove t.upcoming_events addr k)

  -- What a poll comes to.
  abbrev pub Polled : TimeScheduler Q → ℕ → ℕ → Result (Option ℕ × TimeScheduler Q) → Type 0
  Polled t addr waker (ok (some d, t')) =
      (d ≤ t.now) × ((t.sleeps addr ≡ some (init d)) ⊎ (t.sleeps addr ≡ some (done d))) × TInv pq t'
  Polled t addr waker (ok (none, t')) =
      ((d : ℕ) × (pq.get_priority t'.upcoming_events addr ≡ some d) × (t.now < d))
      × (t'.sleeps addr ≡ some (waiting waker))
      × TInv pq t'
  Polled t addr waker (panic why) =
      (t.sleeps addr ≡ none) ⊎ ((t.sleeps addr ≡ some taken) × (why ≡ unreachable))

  module _ (t : TimeScheduler Q) (addr waker : ℕ) (v : TInv pq t) where
    -- The result of the poll, and what it comes to.
    result :
        (r : Result (Option ℕ × TimeScheduler Q))
        → poll_sleep pq t addr waker ≡ r
        → Polled t addr waker r
        → Polled t addr waker (poll_sleep pq t addr waker)
    result r e = subst (Polled t addr waker) (sym e)

    due :
        (d : ℕ)
        → t.sleeps addr ≡ some (init d)
        → leb d t.now ≡ true
        → Polled t addr waker (poll_sleep pq t addr waker)
    unfolding poll_sleep
    due d e passed =
        result (ok (some d, put pq t addr taken)) (ground arith)
          (ground arith, inl e, λ k. ground (arith, v k, v addr))

    ahead :
        (d : ℕ)
        → t.sleeps addr ≡ some (init d)
        → leb d t.now ≡ false
        → Polled t addr waker (poll_sleep pq t addr waker)
    unfolding poll_sleep
    ahead d e later =
        result
          (ok (
            none,
            record (put pq t addr (waiting waker)) {
              upcoming_events = pq.push t.upcoming_events addr d;
            },
          ))
          (ground arith)
          (
            (d, ground (arith, laws.get-push t.upcoming_events addr d addr), ground arith),
            ground arith,
            (λ k. ground (arith, v k, v addr, laws.get-push t.upcoming_events addr d k)),
          )

    has_entry :
        (w : ℕ)
        → t.sleeps addr ≡ some (waiting w)
        → (d : ℕ) × (pq.get_priority t.upcoming_events addr ≡ some d) × (t.now < d)
    has_entry w e = elim (Option-cases (pq.get_priority t.upcoming_events addr)) [
      | inl missing ↦ ground (arith, v addr)
      | inr (d, entry) ↦ (d, entry, ground (arith, v addr))
    ]

    in_state :
        (s : TimeFutureState)
        → t.sleeps addr ≡ some s
        → Polled t addr waker (poll_sleep pq t addr waker)
    unfolding poll_sleep
    in_state (init d) e = elim (Bool-cases (leb d t.now)) [
      | inl passed ↦ due d e passed
      | inr later ↦ ahead d e later
    ]
    in_state (waiting w) e =
        result (ok (none, put pq t addr (waiting waker))) (ground arith)
          (has_entry w e, ground arith, λ k. ground (arith, v k, v addr))
    in_state (done at) e = result (ok (some at, put pq t addr (done at))) (ground arith) (
      elim (Option-cases (pq.get_priority t.upcoming_events addr)) [
        | inl no_entry ↦ ground (arith, v addr)
        | inr (d, entry) ↦ ground (arith, v addr)
      ],
      inr e,
      (λ k. ground (arith, v k, v addr)),
    )
    in_state taken e = result (panic unreachable) (ground arith) (inr (e, refl))

    -- A poll of a `Sleep` keeps the invariant. It is ready only with its deadline, which has passed;
    -- otherwise it has an entry in the queue with a later deadline, and the last waker. It panics only
    -- if there is no such `Sleep`, or with unreachable if it was ready at its first poll.
    pub poll_sleep_lem : Polled t addr waker (poll_sleep pq t addr waker)
    unfolding poll_sleep
    poll_sleep_lem = elim (Option-cases (t.sleeps addr)) [
      | inl e ↦ result (panic dangling) (ground arith) (inl e)
      | inr (s, e) ↦ in_state s e
    ]
