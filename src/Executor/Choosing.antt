-- ===== src/Executor/Choosing.antt =====
-- `next_task` of src/executor.rs: what the main loop finds in the queue.
use refault.Prelude.{
  ℕ, ◌<◌, length, ◌≡◌, refl, sym, subst, Bool, true, Bool-cases, List, [], ◌∷◌, Option,
  Option-cases, none, some, is_some, inl, inr, ◌⊎◌, Result, Result-cases, Returns, ok, panic, arith,
  ==_refl,
}
use refault.Events.{EventHandler, Event, task_run}
use refault.Executor.State.{Executor, TaskShared, store, waiting}
use refault.Executor.Polling.{run, removed, pop_one, next_task, pop_loop, start}
use refault.Executor.Invariant.{Inv}
use refault.Executor.Invariant.Popping.{PopPost, pop_one-Post}
use refault.Executor.Machine.{pop_front}
use refault.Executor.Machine.Order.{removed-queue, run-queue}
use refault.Executor.Machine.Stability.{Later, pop_one-Later, run-Later}

module _ {F : Type 0} where
  -- There is an object at the address.
  abbrev pub Known : Executor F → ℕ → Type 0
  Known ex p = is_some (ex.shared p) ≡ true

  -- No object goes away.
  abbrev pub Lasts : Executor F → Executor F → Type 0
  Lasts ex ex' = (p : ℕ) → Known ex p → Known ex' p

  pub Lasts-of-Later :
      (ex ex' : Executor F)
      → ((p : ℕ) (sh : TaskShared) → ex.shared p ≡ some sh → Later sh (ex'.shared p))
      → Lasts ex ex'
  Lasts-of-Later ex ex' later p known = elim (Option-cases (ex.shared p)) [
    | inl gone ↦ ground arith
    | inr (sh, there) ↦ elim (Option-cases (ex'.shared p)) [
      | inl gone ↦ absurd (subst (Later sh) gone (later p sh there))
      | inr (sh', there') ↦ ground arith
    ]
  ]

  -- The simulation was stopped, or no task is ready.
  abbrev pub HasNone : Executor F → Type 0
  HasNone ex = (ex.final_stopped ≡ true) ⊎ (ex.ready_queue ≡ [])

  module _ {H : Type 0} (debug : Bool) (handler : EventHandler H) where
    loop-HasNone :
        (queue : List ℕ) (ex : Executor F) (h : H) (ex' : Executor F) (h' : H)
        → ex.ready_queue ≡ queue
        → pop_loop handler debug queue ex h ≡ ok (none, ex', h')
        → ex'.ready_queue ≡ []
    unfolding pop_loop start
    loop-HasNone [] ex h ex' h' same e = ground arith
    loop-HasNone (k ∷ rest) ex h ex' h' same e =
        elim (Result-cases (pop_one debug (pop_front ex rest) k)) [
          | inl (run p future sh ex1, popped) ↦ ground arith
          | inl (removed ex1, popped) ↦
              loop-HasNone rest ex1 h ex' h' (removed-queue (pop_front ex rest) debug k popped)
                (ground arith)
          | inr (why, popped) ↦ ground arith
        ]

    -- When there is no task to poll, the simulation was stopped or the queue is empty.
    pub next_task-HasNone :
        (ex : Executor F) (h : H) (ex' : Executor F) (h' : H)
        → next_task handler debug ex h ≡ ok (none, ex', h')
        → HasNone ex'
    unfolding next_task
    next_task-HasNone ex h ex' h' e = elim (Bool-cases ex.final_stopped) [
      | inl over ↦ inl (ground arith)
      | inr on ↦ inr (loop-HasNone ex.ready_queue ex h ex' h' refl (ground arith))
    ]

    loop-shorter :
        (queue : List ℕ) (ex : Executor F) (h : H) (p : ℕ) (future : F) (ex' : Executor F) (h' : H)
        → ex.ready_queue ≡ queue
        → pop_loop handler debug queue ex h ≡ ok (some (p, future), ex', h')
        → length ex'.ready_queue < length queue
    unfolding pop_loop start
    loop-shorter [] ex h p future ex' h' same e = ground arith
    loop-shorter (k ∷ rest) ex h p future ex' h' same e =
        elim (Result-cases (pop_one debug (pop_front ex rest) k)) [
          | inl (run q fut sh ex1, popped) ↦
              ground (arith, run-queue (pop_front ex rest) debug k q fut sh popped)
          | inl (removed ex1, popped) ↦
              let shorter =
                loop-shorter rest ex1 h p future ex' h'
                  (removed-queue (pop_front ex rest) debug k popped) (ground arith) in
              omega arith
          | inr (why, popped) ↦ ground arith
        ]

    -- Choosing a task takes it, at least, from the queue.
    pub next_task-shorter :
        (ex : Executor F) (h : H) (p : ℕ) (future : F) (ex' : Executor F) (h' : H)
        → next_task handler debug ex h ≡ ok (some (p, future), ex', h')
        → length ex'.ready_queue < length ex.ready_queue
    unfolding next_task
    next_task-shorter ex h p future ex' h' e =
        loop-shorter ex.ready_queue ex h p future ex' h' refl (ground arith)

    module _ (accepts : (h : H) (e : Event) → Returns (handler.handle_event h e)) where
      -- The next task to poll has left its entry and waits, or there is none; and never a panic.
      abbrev pub NextPost : Executor F → Result (Option (ℕ × F) × Executor F × H) → Type 0
      NextPost ex (ok (none, ex', h')) = Inv none ex' × Lasts ex ex'
      NextPost ex (ok (some (p, future), ex', h')) = Inv (some p) ex' × Lasts ex ex' × Known ex' p
      NextPost ex (panic why) = ⊥

      NextPost-trans :
          (ex ex1 : Executor F) (r : Result (Option (ℕ × F) × Executor F × H))
          → Lasts ex ex1
          → NextPost ex1 r
          → NextPost ex r
      NextPost-trans ex ex1 (ok (none, ex', h')) l (v, l') = (v, λ p k. l' p (l p k))
      NextPost-trans ex ex1 (ok (some (p, future), ex', h')) l (v, l', there) =
          (v, λ q k. l' q (l q k), there)
      NextPost-trans ex ex1 (panic why) l post = post

      loop-NextPost :
          (queue : List ℕ) (ex : Executor F) (h : H)
          → Inv none ex
          → ex.ready_queue ≡ queue
          → NextPost ex (pop_loop handler debug queue ex h)
      unfolding pop_loop start
      loop-NextPost [] ex h v same = (v, λ p known. known)
      loop-NextPost (k ∷ rest) ex h v same =
          let post = pop_one-Post debug ex k rest v same in
          elim (Result-cases (pop_one debug (pop_front ex rest) k)) [
            | inl (run p future sh ex1, popped) ↦
                let (h1, handled) = accepts h (task_run sh.id) in
                let chosen : pop_loop handler debug (k ∷ rest) ex h
                    ≡ ok (some (p, future), store ex1 p sh waiting, h1) =
                  rw (pop_loop, popped, start, handled) refl in
                subst (NextPost ex) (sym chosen) (
                  subst PopPost popped post,
                  Lasts-of-Later ex (store ex1 p sh waiting) (λ q sh' there.
                      (run-Later (pop_front ex rest) q sh' there debug k p future sh popped).0),
                  ground (arith, ==_refl p),
                )
            | inl (removed ex1, popped) ↦
                let goes_on : pop_loop handler debug (k ∷ rest) ex h
                    ≡ pop_loop handler debug rest ex1 h =
                  rw (pop_loop, popped) refl in
                subst (NextPost ex) (sym goes_on) (
                  NextPost-trans ex ex1 (pop_loop handler debug rest ex1 h)
                    (Lasts-of-Later ex ex1
                      (λ q sh there. pop_one-Later (pop_front ex rest) q sh there debug k popped))
                    (loop-NextPost rest ex1 h (subst PopPost popped post)
                      (removed-queue (pop_front ex rest) debug k popped)))
            | inr (why, popped) ↦ absurd (subst PopPost popped post)
          ]

      pub next_task-NextPost :
          (ex : Executor F) (h : H) → Inv none ex → NextPost ex (next_task handler debug ex h)
      unfolding next_task
      next_task-NextPost ex h v = elim (Bool-cases ex.final_stopped) [
        | inl over ↦
            let stays : next_task handler debug ex h ≡ ok (none, ex, h) = ground arith in
            subst (NextPost ex) (sym stays) (v, λ p known. known)
        | inr on ↦
            let looks : next_task handler debug ex h ≡ pop_loop handler debug ex.ready_queue ex h =
              ground arith in
            subst (NextPost ex) (sym looks) (loop-NextPost ex.ready_queue ex h v refl)
      ]
