-- ===== src/Time/Wakers.antt =====
-- Which wakers the scheduler holds, and that firing the sleeps does not panic if these can be woken.
use refault.Prelude.{
  ℕ, zero, suc, ◌+◌, ◌-◌, ◌≤◌, ◌<◌, ◌≡◌, refl, sym, subst, Bool, true, false, Option, Option-cases,
  none, some, inl, inr, Result, Result-cases, Returns, ok, panic, arith, update, leb,
}
use refault.Time.Queue.{PriorityQueue, QueueLaws}
use refault.Time.Sleeping.{Timed, TInv}
use refault.Time.{
  TimeFutureState, init, waiting, done, taken, TimeScheduler, new_sleep, poll_sleep, drop_sleep,
  poll_in, fire_due, wait_until_next_future_ready,
}
use refault.Events.{EventHandler, Event, time_advanced}
use refault.Time.Firing.{waits, next, facts, next-Timed, stops, goes_on}
use refault.Time.Advancing.{at_rest, advanced-Timed, Advance, wait_until_next_future_ready_lem}

-- The waker of a sleep that waits.
abbrev pub WakerOf : (ℕ → Type 0) → Option TimeFutureState → Type 0
WakerOf P (some (waiting waker)) = P waker
WakerOf P _ = Unit

pub WakerOf-map :
    (P P' : ℕ → Type 0) (s : Option TimeFutureState)
    → ((p : ℕ) → P p → P' p)
    → WakerOf P s
    → WakerOf P' s
WakerOf-map P P' (some (waiting waker)) f h = f waker h
WakerOf-map P P' (some (init d)) f h = tt
WakerOf-map P P' (some (done d)) f h = tt
WakerOf-map P P' (some taken) f h = tt
WakerOf-map P P' none f h = tt

-- All wakers that the scheduler holds.
abbrev pub Wakers : {Q : Type 0} → (ℕ → Type 0) → TimeScheduler Q → Type 0
Wakers P t = (k : ℕ) → WakerOf P (t.sleeps k)

module _ {Q : Type 0} (pq : PriorityQueue Q) (P : ℕ → Type 0) (t : TimeScheduler Q)
    (all : Wakers P t) where
  pub new_sleep-Wakers : (addr deadline : ℕ) → Wakers P (new_sleep pq t addr deadline)
  unfolding new_sleep
  new_sleep-Wakers addr deadline k = ground (arith, all k)

  pub drop_sleep-Wakers : (addr : ℕ) → Wakers P (drop_sleep pq t addr)
  unfolding drop_sleep
  drop_sleep-Wakers addr k = ground (arith, all k)

  pub poll_sleep-Wakers :
      (addr waker : ℕ) (r : Option ℕ) (t' : TimeScheduler Q)
      → P waker
      → poll_sleep pq t addr waker ≡ ok (r, t')
      → Wakers P t'
  unfolding poll_sleep poll_in
  poll_sleep-Wakers addr waker r t' known e k = ground (arith, all k)

module _ {Q E : Type 0} (pq : PriorityQueue Q) (laws : QueueLaws pq) (wake : E → ℕ → Result E)
    (P : ℕ → Type 0) (Keeps : E → Type 0)
    (wakes : (e : E) (w : ℕ) → Keeps e → P w → (e' : E) × (wake e w ≡ ok e') × Keeps e') where
  -- The loop returns, with known wakers and a queue of at most `n` entries.
  abbrev Fires : ℕ → Result (TimeScheduler Q × E) → Type 0
  Fires n (ok (t, e)) = Wakers P t × Keeps e × (pq.len t.upcoming_events ≤ n)
  Fires n (panic why) = ⊥

  Fires-le : (n m : ℕ) (r : Result (TimeScheduler Q × E)) → n ≤ m → Fires n r → Fires m r
  Fires-le n m (ok (t, e)) le (all, kept, short) = (all, kept, omega arith)
  Fires-le n m (panic why) le h = h

  next-Wakers :
      (t : TimeScheduler Q) (a d : ℕ) (queue : Q)
      → Wakers P t
      → Wakers P (record t { upcoming_events = queue; sleeps = update t.sleeps a (some (done d)) })
  next-Wakers t a d queue all k = ground (arith, all k)

  -- A round that fires a sleep, given what the rest of the loop does.
  fire_due-step :
      (fuel : ℕ) (t : TimeScheduler Q) (e : E) (v : Timed pq t.now t) (a d : ℕ) (queue : Q)
      (popped : pq.pop_if t.upcoming_events (λ _ at. leb at t.now) ≡ some ((a, d), queue))
      → Wakers P t
      → Keeps e
      → ((e' : E)
          → Keeps e'
          → Fires
              (pq.len queue)
              (fire_due pq wake fuel (next pq laws wake t v a d queue popped) e'))
      → Fires (pq.len queue) (fire_due pq wake (suc fuel) t e)
  fire_due-step fuel t e v a d queue popped all kept loop =
      let (entry, due, rest, shorter) = facts pq laws wake t v a d queue popped in
      let (w, state) = waits pq laws wake t v a d entry in
      let (e', woken, kept') = wakes e w kept (subst (WakerOf P) state (all a)) in
      subst (Fires (pq.len queue))
        (sym (goes_on pq laws wake fuel t e v a d queue w popped state e' woken)) (loop e' kept')

  fire_due-Fires :
      (fuel : ℕ) (t : TimeScheduler Q) (e : E)
      → Timed pq t.now t
      → pq.len t.upcoming_events < fuel
      → Wakers P t
      → Keeps e
      → Fires (pq.len t.upcoming_events) (fire_due pq wake fuel t e)
  fire_due-Fires zero t e v enough all kept = absurd (omega arith)
  fire_due-Fires (suc fuel) t e v enough all kept =
      elim (Option-cases (pq.pop_if t.upcoming_events (λ _ at. leb at t.now))) [
        | inl none_due ↦
            subst (Fires (pq.len t.upcoming_events)) (sym (stops pq laws wake fuel t e none_due))
              (all, kept, omega arith)
        | inr (((a, d), queue), popped) ↦
            let (entry, due, rest, shorter) = facts pq laws wake t v a d queue popped in
            Fires-le (pq.len queue) (pq.len t.upcoming_events) (fire_due pq wake (suc fuel) t e)
              (omega arith)
              (fire_due-step fuel t e v a d queue popped all kept (λ e' kept'.
                fire_due-Fires fuel (next pq laws wake t v a d queue popped) e'
                  (next-Timed pq laws wake t v a d queue popped) (omega arith)
                  (next-Wakers t a d queue all) kept'))
      ]

  -- What `wait_until_next_future_ready` comes to: with an empty queue nothing, and otherwise a shorter one.
  abbrev pub Waited :
      {H : Type 0} → TimeScheduler Q → ℕ → E → Result (Bool × TimeScheduler Q × ℕ × H × E) → Type 0
  Waited t time e (ok (false, t', time', h', e')) = (t' ≡ t) × (time' ≡ time) × (e' ≡ e)
  Waited t time e (ok (true, t', time', h', e')) =
      Wakers P t'
      × Keeps e'
      × (pq.len t'.upcoming_events < pq.len t.upcoming_events)
      × TInv pq t'
      × (time ≤ time')
  Waited t time e (panic why) = ⊥

  module _ {H : Type 0} (handler : EventHandler H)
      (accepts : (h : H) (ev : Event) → Returns (handler.handle_event h ev)) (t : TimeScheduler Q)
      (time : ℕ) (h : H) (e : E) (v : TInv pq t) (all : Wakers P t) (kept : Keeps e) where
    fired_one :
        (k at : ℕ) (least : pq.peek t.upcoming_events ≡ some (k, at)) (fuel : ℕ)
        → pq.len t.upcoming_events ≤ fuel
        → (n : ℕ) × (pq.len t.upcoming_events ≡ suc n)
          × Fires n (fire_due pq wake (suc fuel) (record t { now = at }) e)
    fired_one k at least fuel enough =
        let timed = advanced-Timed pq laws wake handler t time h e v k at least in
        let now : TimeScheduler Q = record t { now = at } in
        elim (Option-cases (pq.pop_if t.upcoming_events (λ _ d. leb d at))) [
          | inl none_due ↦ elim (laws.pop_if-none t.upcoming_events (λ _ d. leb d at) none_due) [
            | inl empty ↦ absurd (cc)
            | inr (j, d, first, late) ↦ ground arith
          ]
          | inr (((a, d), queue), popped) ↦
              let (entry, due, rest, shorter) = facts pq laws wake now timed a d queue popped in
              (
                pq.len queue,
                shorter,
                fire_due-step fuel now e timed a d queue popped all kept (λ e' kept'.
                    fire_due-Fires fuel (next pq laws wake now timed a d queue popped) e'
                      (next-Timed pq laws wake now timed a d queue popped) (omega arith)
                      (next-Wakers now a d queue all) kept'),
              )
        ]

    pub wait-Waited : Waited t time e (wait_until_next_future_ready pq wake handler t time h e)
    unfolding wait_until_next_future_ready
    wait-Waited = elim (Option-cases (pq.peek t.upcoming_events)) [
      | inl nothing ↦
          subst (Waited t time e) (sym (at_rest pq laws wake handler t time h e v nothing))
            (refl, refl, refl)
      | inr ((k, at), least) ↦
          let (h', handled) = accepts h (time_advanced (at - t.now)) in
          let (n, size, fired) = fired_one k at least (pq.len t.upcoming_events) (omega arith) in
          elim (Result-cases
            (fire_due pq wake (suc (pq.len t.upcoming_events)) (record t { now = at }) e)) [
              | inl ((t', e'), ended) ↦
                  let (all', kept', short) = subst (Fires n) ended fired in
                  let whole : wait_until_next_future_ready pq wake handler t time h e
                      ≡ ok (true, t', time + (at - t.now), h', e') =
                    rw (wait_until_next_future_ready, least, handled, ended) refl in
                  subst (Waited t time e) (sym whole) (
                    all',
                    kept',
                    omega arith,
                    (subst (Advance pq laws wake handler t time h e) whole
                        (wait_until_next_future_ready_lem pq laws wake handler t time h e v)).5,
                    omega arith,
                  )
              | inr (why, raised) ↦ absurd (subst (Fires n) raised fired)
            ]
    ]
