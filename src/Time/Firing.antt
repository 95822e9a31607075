-- ===== src/Time/Firing.antt =====
-- The loop of `wait_until_next_future_ready` that fires the sleeps whose deadline has come.
use refault.Prelude.{
  ℕ, zero, suc, ◌≤◌, ◌<◌, ◌≡◌, refl, sym, subst, Option, Option-cases, inl, inr, none, some, Result,
  Result-cases, ok, panic, Panic, arith, leb, update, if◌then◌else◌, ◌==◌,
}
use refault.Time.Queue.{PriorityQueue, QueueLaws}
use refault.Time.Sleeping.{Timed, TInv}
use refault.Time.{TimeFutureState, init, waiting, done, taken, TimeScheduler, fire_due}

-- A sleep when the time has come to `now`, with its entry in the queue and its state before that.
abbrev pub ended : (now : ℕ) → Option ℕ → Option TimeFutureState → Option TimeFutureState
ended now none state = state
ended now (some d) state = if leb d now then some (done d) else state

module _ {Q : Type 0} (pq : PriorityQueue Q) where
  -- From the one scheduler to the other exactly the sleeps have ended whose deadline is not after
  -- the present instant, which is the same in both.
  abbrev pub Fired : TimeScheduler Q → TimeScheduler Q → Type 0
  Fired t t' =
      (t'.now ≡ t.now)
      × TInv pq t'
      × ((k : ℕ) → t'.sleeps k ≡ ended t.now (pq.get_priority t.upcoming_events k) (t.sleeps k))

module _ {Q E : Type 0} (pq : PriorityQueue Q) (laws : QueueLaws pq) (wake : E → ℕ → Result E) where
  -- A panic of a waker.
  abbrev pub WakePanics : Panic → Type 0
  WakePanics why = (e : E) × (w : ℕ) × (wake e w ≡ panic why)

  abbrev pub LoopPost : TimeScheduler Q → Result (TimeScheduler Q × E) → Type 0
  LoopPost t (ok (t', e')) = Fired pq t t'
  LoopPost t (panic why) = WakePanics why

  module _ (t : TimeScheduler Q) (v : Timed pq t.now t) where
    waiting_if :
        (k d : ℕ) (s : TimeFutureState)
        → t.sleeps k ≡ some s
        → pq.get_priority t.upcoming_events k ≡ some d
        → (w : ℕ) × (t.sleeps k ≡ some (waiting w))
    waiting_if k d (init at) e entry = ground (arith, v k)
    waiting_if k d (waiting w) e entry = (w, e)
    waiting_if k d (done at) e entry = ground (arith, v k)
    waiting_if k d taken e entry = ground (arith, v k)

    -- A sleep with an entry waits.
    pub waits :
        (k d : ℕ)
        → pq.get_priority t.upcoming_events k ≡ some d
        → (w : ℕ) × (t.sleeps k ≡ some (waiting w))
    waits k d entry = elim (Option-cases (t.sleeps k)) [
      | inl e ↦ ground (arith, v k)
      | inr (s, e) ↦ waiting_if k d s e entry
    ]

    -- The queue has nothing that is due.
    idle : pq.pop_if t.upcoming_events (λ _ at. leb at t.now) ≡ none → Fired pq t t
    idle e = elim (laws.pop_if-none t.upcoming_events (λ _ at. leb at t.now) e) [
      | inl empty ↦ (
        refl,
        (λ k. ground (arith, v k, laws.peek-none t.upcoming_events empty k)),
        (λ k. ground (arith, laws.peek-none t.upcoming_events empty k)),
      )
      | inr (a, d, least, late) ↦ (
        refl,
        (λ k. elim (Option-cases (pq.get_priority t.upcoming_events k)) [
          | inl no_entry ↦ ground (arith, v k)
          | inr (at, entry) ↦
              ground (arith, v k, laws.peek-least t.upcoming_events a d least k at entry)
        ]),
        (λ k. elim (Option-cases (pq.get_priority t.upcoming_events k)) [
          | inl no_entry ↦ ground (arith, v k)
          | inr (at, entry) ↦
              ground (arith, v k, laws.peek-least t.upcoming_events a d least k at entry)
        ]),
      )
    ]

    module _ (a d : ℕ) (queue : Q)
        (popped : pq.pop_if t.upcoming_events (λ _ at. leb at t.now) ≡ some ((a, d), queue)) where
      abbrev pub next : TimeScheduler Q
      next = record t { upcoming_events = queue; sleeps = update t.sleeps a (some (done d)) }

      pub facts :
          (pq.get_priority t.upcoming_events a ≡ some d)
          × (d ≤ t.now)
          × ((j : ℕ)
              → pq.get_priority queue j
                ≡ (if a == j then none else pq.get_priority t.upcoming_events j))
          × (pq.len t.upcoming_events ≡ suc (pq.len queue))
      facts =
          let (peeked, test, shorter, rest) =
            laws.pop_if-some t.upcoming_events (λ _ at. leb at t.now) a d queue popped in
          (laws.peek-some t.upcoming_events a d peeked, ground arith, rest, shorter)

      pub next-Timed : Timed pq t.now next
      next-Timed k = let (entry, due, rest, shorter) = facts in ground (arith, v k, rest k)

      next-Fired : (t' : TimeScheduler Q) → Fired pq next t' → Fired pq t t'
      next-Fired t' (now, v', states) =
          let (entry, due, rest, shorter) = facts in
          (now, v', λ k. ground (arith, states k, rest k, entry))

  on_result :
      (t : TimeScheduler Q) (v : Timed pq t.now t) (a d : ℕ) (queue : Q)
      (popped : pq.pop_if t.upcoming_events (λ _ at. leb at t.now) ≡ some ((a, d), queue))
      (r : Result (TimeScheduler Q × E))
      → LoopPost (next t v a d queue popped) r
      → LoopPost t r
  on_result t v a d queue popped (ok (t', e')) fired = next-Fired t v a d queue popped t' fired
  on_result t v a d queue popped (panic why) raised = raised

  -- One round of the loop, by what the pop and the waker come to.
  module _ (fuel : ℕ) (t : TimeScheduler Q) (e : E) where
    pub stops :
        pq.pop_if t.upcoming_events (λ _ at. leb at t.now) ≡ none
        → fire_due pq wake (suc fuel) t e ≡ ok (t, e)
    unfolding fire_due
    stops none_due = ground arith

    module _ (v : Timed pq t.now t) (a d : ℕ) (queue : Q) (w : ℕ)
        (popped : pq.pop_if t.upcoming_events (λ _ at. leb at t.now) ≡ some ((a, d), queue))
        (state : t.sleeps a ≡ some (waiting w)) where
      pub goes_on :
          (e' : E)
          → wake e w ≡ ok e'
          → fire_due pq wake (suc fuel) t e ≡ fire_due pq wake fuel (next t v a d queue popped) e'
      unfolding fire_due
      goes_on e' woken = ground arith

      raises : (why : Panic) → wake e w ≡ panic why → fire_due pq wake (suc fuel) t e ≡ panic why
      unfolding fire_due
      raises why raised = ground arith

  -- What the rest of the loop does from the next scheduler on is what the loop does.
  after_one :
      (fuel : ℕ) (t : TimeScheduler Q) (v : Timed pq t.now t) (a d : ℕ) (queue : Q)
      (popped : pq.pop_if t.upcoming_events (λ _ at. leb at t.now) ≡ some ((a, d), queue)) (e : E)
      → LoopPost (next t v a d queue popped) (fire_due pq wake fuel (next t v a d queue popped) e)
      → LoopPost t (fire_due pq wake fuel (next t v a d queue popped) e)
  after_one fuel t v a d queue popped e =
      on_result t v a d queue popped (fire_due pq wake fuel (next t v a d queue popped) e)

  pub fire_due-LoopPost :
      (fuel : ℕ) (t : TimeScheduler Q) (e : E)
      → Timed pq t.now t
      → pq.len t.upcoming_events < fuel
      → LoopPost t (fire_due pq wake fuel t e)
  fire_due-LoopPost zero t e v enough = ground arith
  fire_due-LoopPost (suc fuel) t e v enough =
      elim (Option-cases (pq.pop_if t.upcoming_events (λ _ at. leb at t.now))) [
        | inl none_due ↦ subst (LoopPost t) (sym (stops fuel t e none_due)) (idle t v none_due)
        | inr (((a, d), queue), popped) ↦
            let (entry, due, rest, shorter) = facts t v a d queue popped in
            let (w, state) = waits t v a d entry in
            elim (Result-cases (wake e w)) [
              | inl (e', woken) ↦
                  subst (LoopPost t) (sym (goes_on fuel t e v a d queue w popped state e' woken)) (
                    after_one fuel t v a d queue popped e' (
                      fire_due-LoopPost fuel (next t v a d queue popped) e'
                        (next-Timed t v a d queue popped) (ground arith)))
              | inr (why, raised) ↦
                  subst (LoopPost t) (sym (raises fuel t e v a d queue w popped state why raised))
                    (e, w, raised)
            ]
      ]
