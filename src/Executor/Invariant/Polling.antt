-- ===== src/Executor/Invariant/Polling.antt =====
-- The critical section after a poll never panics, and keeps the invariant.
use refault.Prelude.{
  ℕ, ◌≡◌, refl, Bool, true, Option, some, none, arith, get_elem?, get_elem?-some, update, ok, panic,
  Result, Option-cases, inl, inr, ◌⊎◌, contains,
}
use refault.Executor.State.{
  Executor, NodeData, complete_ready, complete, aborted_ready, ready, waiting, TaskShared,
  TaskEntry, store,
}
use refault.Executor.Polling.{Poll, poll_ready, pending, after_poll}
use refault.Executor.Invariant.{Inv}
use refault.Executor.Invariant.Removing.{without, without-Inv}

module _ {F : Type 0} where
  -- After a poll no task is being polled; and never a panic.
  abbrev pub PollPost : Result (Option F × Executor F) → Type 0
  PollPost (ok (dropped, ex)) = Inv none ex
  PollPost (panic e) = ⊥

  module _ (debug : Bool) (ex : Executor F) (k : ℕ) (en : TaskEntry F) (sh : TaskShared)
      (d : NodeData) (entry : ex.tasks k ≡ some en) (object : ex.shared k ≡ some sh)
      (at : get_elem? ex.nodes sh.node ≡ some d) where
    module _ (v : Inv (some k) ex) (future : F) where
      listed_here : contains d.tasks k ≡ true
      listed_here = ground (arith, v.listed k sh.node)

      poll_cases : (sh.state ≡ waiting) ⊎ (sh.state ≡ ready) ⊎ (sh.state ≡ aborted_ready)
      poll_cases = ground (arith, v.slots k)

      back-Inv :
          (sh.state ≡ waiting) ⊎ (sh.state ≡ ready)
          → Inv none
              (record ex { tasks = update ex.tasks k (some (record en { task = some future })) })
      back-Inv st = record {
        slots = λ i. ground (arith, v.slots i, v.slots k);
        listed = λ i n. ground (arith, v.listed i n);
        placed = λ i. ground (arith, v.placed i);
        fresh = λ i h. ground (arith, v.fresh i);
        bounded = v.bounded;
      }

      idle-Inv : sh.state ≡ aborted_ready → Inv none ex
      idle-Inv st = record {
        slots = λ i. ground (arith, v.slots i, v.slots k);
        listed = v.listed;
        placed = v.placed;
        fresh = v.fresh;
        bounded = v.bounded;
      }

      finished-Inv :
          (sh.state ≡ ready) ⊎ (sh.state ≡ aborted_ready) → Inv none (store ex k sh complete_ready)
      finished-Inv st = record {
        slots = λ i. ground (arith, v.slots i, v.slots k);
        listed = λ i n. ground (arith, v.listed i n);
        placed = λ i. ground (arith, v.placed i);
        fresh = λ i h. ground (arith, v.fresh i);
        bounded = v.bounded;
      }

      put_back :
          (sh.state ≡ waiting) ⊎ (sh.state ≡ ready)
          → after_poll debug ex k (pending future)
            ≡ ok (
              none,
              record ex { tasks = update ex.tasks k (some (record en { task = some future })) },
            )
      unfolding after_poll
      put_back st = ground (arith, v.slots k)

      drop_aborted :
          sh.state ≡ aborted_ready → after_poll debug ex k (pending future) ≡ ok (some future, ex)
      unfolding after_poll
      drop_aborted st = ground (arith, v.slots k)

      finish_queued :
          (sh.state ≡ ready) ⊎ (sh.state ≡ aborted_ready)
          → after_poll debug ex k (poll_ready future)
            ≡ ok (some future, store ex k sh complete_ready)
      unfolding after_poll
      finish_queued st = ground (arith, v.slots k)

      finish_now :
          sh.state ≡ waiting
          → after_poll debug ex k (poll_ready future)
            ≡ ok (some future, without ex ex.ready_queue k sh d complete)
      unfolding after_poll
      finish_now st = ground (arith, v.slots k, listed_here)

      polled_known :
          (result : Poll F)
          → (result ≡ pending future) ⊎ (result ≡ poll_ready future)
          → PollPost (after_poll debug ex k result)
      polled_known result is = elim is [
        | inl e ↦ rw e (elim poll_cases [
          | inl st ↦ rw (put_back (inl st)) (back-Inv (inl st))
          | inr (inl st) ↦ rw (put_back (inr st)) (back-Inv (inr st))
          | inr (inr st) ↦ rw (drop_aborted st) (idle-Inv st)
        ])
        | inr e ↦ rw e (elim poll_cases [
          | inl st ↦ rw (finish_now st) (
              without-Inv ex v k en sh d entry object at none ex.ready_queue
                (λ i. ground (arith, v.slots k)) (λ i. ground arith) complete tt)
          | inr (inl st) ↦ rw (finish_queued (inl st)) (finished-Inv (inl st))
          | inr (inr st) ↦ rw (finish_queued (inr st)) (finished-Inv (inr st))
        ])
      ]

  -- The task that is being polled has an entry, a shared object and a node.
  polled :
      (ex : Executor F) (k : ℕ) (v : Inv (some k) ex)
      → (en : TaskEntry F) × (sh : TaskShared) × (d : NodeData) × (ex.tasks k ≡ some en)
        × (ex.shared k ≡ some sh)
        × (get_elem? ex.nodes sh.node ≡ some d)
  polled ex k v = elim (Option-cases (ex.tasks k)) [
    | inl e ↦ absurd (ground (arith, v.slots k))
    | inr (en, e) ↦ elim (Option-cases (ex.shared k)) [
      | inl o ↦ absurd (ground (arith, v.slots k))
      | inr (sh, o) ↦
          let (d, at) = get_elem?-some ex.nodes sh.node (ground (arith, v.placed k)) in
          (en, sh, d, e, o, at)
    ]
  ]

  future_of :
      (result : Poll F) → (future : F) × ((result ≡ pending future) ⊎ (result ≡ poll_ready future))
  future_of (pending future) = (future, inl refl)
  future_of (poll_ready future) = (future, inr refl)

  pub after_poll-Post :
      (debug : Bool) (ex : Executor F) (k : ℕ) (result : Poll F)
      → Inv (some k) ex
      → PollPost (after_poll debug ex k result)
  after_poll-Post debug ex k result v =
      let (en, sh, d, e, o, at) = polled ex k v in
      let (future, is) = future_of result in
      polled_known debug ex k en sh d e o at v future result is
