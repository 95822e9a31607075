-- ===== src/Executor/Turns/Taking.antt =====
-- The main loop's steps leave no task alive on a node that was stopped.
use refault.Prelude.{
  ℕ, ◌≡◌, refl, sym, inl, inr, Bool, true, false, Option, Option-cases, some, none, arith, ok,
  ◌>>=◌, ◌∙◌, parts_of_ok,
}
use refault.Executor.State.{
  Executor, TaskState, complete, aborted_ready, TaskShared, deref, store, waiting, ready,
  new_executor,
}
use refault.Executor.Tasks.{remove_task_entry}
use refault.Executor.Polling.{Poll, poll_ready, pending, run, removed, pop_one, after_poll}
use refault.Executor.Machine.{Machine, pop_front, Step, calls, runs, removes, polls}
use refault.Executor.Stopping.Quiet.{Quiet, is_on}
use refault.Executor.Turns.Removing.{Removal-Quiet, removed-Removal}
use refault.Executor.Turns.{IsMain}

module _ {F : Type 0} (debug : Bool) (ex : Executor F) (ex' : Executor F) where
  module _ (p : ℕ) (sh : TaskShared) {dropped : Option F} (object : ex.shared p ≡ some sh)
      (q : Quiet (λ _. false) ex) where
    -- A poll that is over for good leaves an entry for the queue, or none.
    finished-Quiet :
        (future : F) (st : TaskState)
        → sh.state ≡ st
        → after_poll debug ex p (poll_ready future) ≡ ok (dropped, ex')
        → Quiet (λ _. false) ex'
    unfolding after_poll
    finished-Quiet future waiting at e i =
        let whole : after_poll debug ex p (poll_ready future) ≡ (do
          rest ← remove_task_entry debug (store ex p sh complete) sh.id
          ok (some future, rest)) =
          rw (after_poll, deref, object, at) refl in
        let (rest, removal, last) =
          parts_of_ok (remove_task_entry debug (store ex p sh complete) sh.id) _ (sym whole ∙ e) in
        Removal-Quiet debug ex ex' (p, sh, complete, object, tt, cc) q i
    finished-Quiet future ready at e i = ground (arith, q i)
    finished-Quiet future aborted_ready at e i = ground (arith, q i)
    finished-Quiet future _ at e i = ground arith

    -- A poll that is pending changes no object and no node.
    pending-Quiet :
        (future : F)
        → after_poll debug ex p (pending future) ≡ ok (dropped, ex')
        → Quiet (λ _. false) ex'
    unfolding after_poll
    pending-Quiet future e i = ground (arith, q i)

    after_poll-Quiet :
        (result : Poll F)
        → after_poll debug ex p result ≡ ok (dropped, ex')
        → Quiet (λ _. false) ex'
    after_poll-Quiet (poll_ready future) e = finished-Quiet future sh.state refl e
    after_poll-Quiet (pending future) e = pending-Quiet future e

  no_task :
      (p : ℕ) (result : Poll F) {dropped : Option F}
      → ex.shared p ≡ none
      → after_poll debug ex p result ≡ ok (dropped, ex')
      → ⊥
  unfolding after_poll
  no_task p result absent e = ground arith

  polled-Quiet :
      (p : ℕ) (result : Poll F) {dropped : Option F}
      → after_poll debug ex p result ≡ ok (dropped, ex')
      → Quiet (λ _. false) ex
      → Quiet (λ _. false) ex'
  polled-Quiet p result e q = elim (Option-cases (ex.shared p)) [
    | inl absent ↦ absurd (no_task p result absent e)
    | inr (sh, object) ↦ after_poll-Quiet p sh object q result e
  ]

  -- The task that is taken for a poll is alive, and nothing else changes.
  pub taken-Quiet :
      (k p : ℕ) (future : F) (sh : TaskShared)
      → pop_one debug ex k ≡ ok (run p future sh ex')
      → Quiet (λ _. false) ex
      → Quiet (λ _. false) (store ex' p sh waiting) × (is_on ex.nodes sh.node ≡ true)
  unfolding pop_one
  taken-Quiet k p future sh e q = (λ i. ground (arith, q i, q p), ground (arith, q p))

  dropped-Quiet :
      (k : ℕ)
      → pop_one debug ex k ≡ ok (removed ex')
      → Quiet (λ _. false) ex
      → Quiet (λ _. false) ex'
  dropped-Quiet k e = Removal-Quiet debug ex ex' (removed-Removal debug ex ex' k e)

pub initial-Quiet : (F : Type 0) → Quiet {F = F} (λ _. false) new_executor
unfolding new_executor
initial-Quiet F i = tt

module _ {F : Type 0} {debug : Bool} where
  pub main-Quiet :
      {s t : Machine F} (st : Step debug s t)
      → IsMain st
      → Quiet (λ _. false) s.executor
      → Quiet (λ _. false) t.executor
  main-Quiet (calls c e) m q = absurd m
  main-Quiet {s} (runs k rest p future sh ex idle on queue e eq) m q =
      rw eq ((taken-Quiet debug (pop_front s.executor rest) ex k p future sh e q).0)
  main-Quiet {s} (removes k rest ex idle on queue e eq) m q =
      rw eq (dropped-Quiet debug (pop_front s.executor rest) ex k e q)
  main-Quiet {s} (polls p result dropped ex busy e eq) m q =
      rw eq (polled-Quiet debug s.executor ex p result e q)
