-- ===== src/MainLoop/Program.antt =====
-- What is assumed of a program for its simulation to end: code of the user returns, keeps to the interface,
-- and does finitely many things in all.
use refault.Prelude.{
  ℕ, ◌<◌, ◌≡◌, ◌∙◌, refl, Bool, true, false, none, some, inl, inr, ◌⊎◌, Result, ok, arith,
}
use refault.Executor.Polling.{Poll}
use refault.Time.Queue.{PriorityQueue, QueueLaws}
use refault.MainLoop.{World}
use refault.MainLoop.UserCode.{UserActs}
use refault.MainLoop.Wakers.{Good}

module _ {F H Q W : Type 0} (debug : Bool) (pq : PriorityQueue Q) (laws : QueueLaws pq)
    (budget : W → ℕ) (Fine : W → Type 0) where
  -- Some of the budget is spent, or the executor and the scheduler are left alone.
  abbrev pub Spends : World F H Q W → World F H Q W → Type 0
  Spends w w' =
      (budget w'.rest < budget w.rest)
      ⊎ ((budget w'.rest ≡ budget w.rest)
          × (w'.executor ≡ w.executor)
          × (w'.time_scheduler ≡ w.time_scheduler))

  -- The same, as far as the loop can tell.
  abbrev pub Calm : World F H Q W → World F H Q W → Type 0
  Calm w w' =
      (budget w'.rest < budget w.rest)
      ⊎ ((budget w'.rest ≡ budget w.rest)
          × (w'.executor.ready_queue ≡ w.executor.ready_queue)
          × (w'.time_scheduler ≡ w.time_scheduler))

  pub Calm-of-Spends : (w w' : World F H Q W) → Spends w w' → Calm w w'
  Calm-of-Spends w w' (inl less) = inl less
  Calm-of-Spends w w' (inr (same, ex, t)) = inr (same, rw (ex) refl, t)

  pub Calm-trans : (w w1 w2 : World F H Q W) → Calm w w1 → Calm w1 w2 → Calm w w2
  Calm-trans w w1 w2 (inl less) (inl less') = inl (omega arith)
  Calm-trans w w1 w2 (inl less) (inr (same', ex', t')) = inl (omega arith)
  Calm-trans w w1 w2 (inr (same, ex, t)) (inl less') = inl (omega arith)
  Calm-trans w w1 w2 (inr (same, ex, t)) (inr (same', ex', t')) =
      inr (same' ∙ same, ex' ∙ ex, t' ∙ t)

  -- What code of the user does with a world, where `Fine` is an invariant of its own.
  abbrev pub Behaves : World F H Q W → World F H Q W → Type 0
  Behaves w w' = UserActs debug pq w w' × Fine w'.rest × Spends w w'

  -- Every poll of a task returns.
  abbrev pub PollsWell : (ℕ → F → World F H Q W → Result (Poll F × World F H Q W)) → Type 0
  PollsWell poll =
      (p : ℕ) (future : F) (w : World F H Q W)
      → Good debug pq laws (some p) w
      → w.context_borrowed ≡ false
      → Fine w.rest
      → (r : Poll F) × (w' : World F H Q W) × (poll p future w ≡ ok (r, w')) × Behaves w w'

  -- Every destructor of a future that the main loop drops returns, although the context is borrowed.
  abbrev pub DropsWell : (F → World F H Q W → Result (World F H Q W)) → Type 0
  DropsWell drop_future =
      (future : F) (w : World F H Q W)
      → Good debug pq laws none w
      → w.context_borrowed ≡ true
      → Fine w.rest
      → (w' : World F H Q W) × (drop_future future w ≡ ok w') × Behaves w w'
