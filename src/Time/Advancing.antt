-- ===== src/Time/Advancing.antt =====
-- `wait_until_next_future_ready`: to which instant time advances, and which sleeps end there.
use refault.Prelude.{
  ℕ, suc, ◌+◌, ◌-◌, ◌≤◌, ◌<◌, ◌≡◌, refl, sym, subst, Bool, true, false, Option-cases, inl, inr, ◌⊎◌,
  none, some, Result, Result-cases, ok, panic, ◌>>=◌, arith,
}
use refault.Events.{EventHandler, time_advanced}
use refault.Time.Queue.{PriorityQueue, QueueLaws}
use refault.Time.Sleeping.{Timed, TInv}
use refault.Time.{TimeScheduler, fire_due, wait_until_next_future_ready}
use refault.Time.Firing.{ended, WakePanics, LoopPost, fire_due-LoopPost}

module _ {Q E : Type 0} (pq : PriorityQueue Q) (laws : QueueLaws pq) (wake : E → ℕ → Result E) where
  -- One way the time can pass, or the panic of an event handler or a waker.
  abbrev pub Advance :
      {H : Type 0}
      → EventHandler H
      → TimeScheduler Q
      → ℕ
      → H
      → E
      → Result (Bool × TimeScheduler Q × ℕ × H × E)
      → Type 0
  Advance handler t time h e (ok (false, t', time', h', e')) =
      ((k : ℕ) → pq.get_priority t.upcoming_events k ≡ none)
      × (t' ≡ t)
      × (time' ≡ time)
      × (h' ≡ h)
      × (e' ≡ e)
  Advance handler t time h e (ok (true, t', time', h', e')) =
      ((k : ℕ) × (pq.get_priority t.upcoming_events k ≡ some t'.now))
      × ((k d : ℕ) → pq.get_priority t.upcoming_events k ≡ some d → t'.now ≤ d)
      × (t.now < t'.now)
      × (time' ≡ time + (t'.now - t.now))
      × (handler.handle_event h (time_advanced (t'.now - t.now)) ≡ ok h')
      × TInv pq t'
      × ((k : ℕ) → t'.sleeps k ≡ ended t'.now (pq.get_priority t.upcoming_events k) (t.sleeps k))
  Advance handler t time h e (panic why) =
      ((dt : ℕ) × (handler.handle_event h (time_advanced dt) ≡ panic why))
      ⊎ WakePanics pq laws wake why

  module _ {H : Type 0} (handler : EventHandler H) (t : TimeScheduler Q) (time : ℕ) (h : H) (e : E)
      (v : TInv pq t) where
    abbrev Outcome : Type 0
    Outcome = Result (Bool × TimeScheduler Q × ℕ × H × E)

    pub at_rest :
        pq.peek t.upcoming_events ≡ none
        → wait_until_next_future_ready pq wake handler t time h e ≡ ok (false, t, time, h, e)
    unfolding wait_until_next_future_ready
    at_rest nothing = ground arith

    module _ (k at : ℕ) (least : pq.peek t.upcoming_events ≡ some (k, at)) where
      abbrev advanced : TimeScheduler Q
      advanced = record t { now = at }

      pub advanced-Timed : Timed pq at advanced
      advanced-Timed j = elim (Option-cases (pq.get_priority t.upcoming_events j)) [
        | inl no_entry ↦ ground (arith, v j, v k, laws.peek-some t.upcoming_events k at least)
        | inr (d, entry) ↦
            ground (arith, v j, laws.peek-least t.upcoming_events k at least j d entry)
      ]

      abbrev report : H → Result (TimeScheduler Q × E) → Outcome
      report h' r = do (t', e') ← r; ok (true, t', time + (at - t.now), h', e')

      reports : wait_until_next_future_ready pq wake handler t time h e ≡ (do
        h' ← handler.handle_event h (time_advanced (at - t.now))
        report h' (fire_due pq wake (suc (pq.len t.upcoming_events)) advanced e))
      unfolding wait_until_next_future_ready
      reports = rw (wait_until_next_future_ready, least)

      report-Advance :
          (h' : H) (r : Result (TimeScheduler Q × E))
          → handler.handle_event h (time_advanced (at - t.now)) ≡ ok h'
          → LoopPost pq laws wake advanced r
          → Advance handler t time h e (report h' r)
      report-Advance h' (panic why) handled raised = inr raised
      report-Advance h' (ok (t', e')) handled (same, v', states) = (
        (k, ground (arith, laws.peek-some t.upcoming_events k at least)),
        (λ j d entry. ground (arith, laws.peek-least t.upcoming_events k at least j d entry)),
        ground (arith, v k, laws.peek-some t.upcoming_events k at least),
        rw (same) refl,
        rw (same) handled,
        v',
        (λ j. rw (same) (states j)),
      )

  -- From a state of the invariant `wait_until_next_future_ready` does one of three things. With an
  -- empty queue it returns false and changes nothing. Otherwise both clocks advance by the same
  -- positive amount, which is reported, to the earliest deadline; exactly the waiting sleeps with that
  -- deadline are done; and the invariant holds again. Or it raises the panic of the event handler
  -- or of a waker, never one of its own, and its fuel suffices. The queue obeys its documentation.
  pub wait_until_next_future_ready_lem :
      {H : Type 0} (handler : EventHandler H) (t : TimeScheduler Q) (time : ℕ) (h : H) (e : E)
      → TInv pq t
      → Advance handler t time h e (wait_until_next_future_ready pq wake handler t time h e)
  wait_until_next_future_ready_lem handler t time h e v =
      elim (Option-cases (pq.peek t.upcoming_events)) [
        | inl nothing ↦
            subst (Advance handler t time h e) (sym (at_rest handler t time h e v nothing))
              (laws.peek-none t.upcoming_events nothing, refl, refl, refl, refl)
        | inr ((k, at), least) ↦
            subst (Advance handler t time h e) (sym (reports handler t time h e v k at least))
              (elim (Result-cases (handler.handle_event h (time_advanced (at - t.now)))) [
                | inl (h', handled) ↦ rw (handled) (
                    report-Advance handler t time h e v k at least h'
                      (fire_due pq wake (suc (pq.len t.upcoming_events)) (record t { now = at }) e)
                      handled
                      (fire_due-LoopPost pq laws wake (suc (pq.len t.upcoming_events))
                        (record t { now = at }) e (advanced-Timed handler t time h e v k at least)
                        (ground arith)))
                | inr (why, raised) ↦ rw (raised) (inl (at - t.now, raised))
              ])
      ]
