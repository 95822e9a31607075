-- ===== src/Executor/Machine/Ending.antt =====
-- A task that is over stays over, and is never polled again.
use refault.Prelude.{ℕ, ◌≡◌, ◌≢◌, sym, ap, Bool, Option, some, arith, ◌∙◌, Option-cases, inl, inr}
use refault.Executor.State.{Executor, TaskShared, TaskState}
use refault.Executor.Invariant.{Inv}
use refault.Executor.Machine.{
  Machine, pop_front, Call, wakes, spawns, aborts, creates_node, marks_stopped, marks_started,
  stops_simulation, takes_id, Step, calls, runs, removes, polls, Reach, Steps, done, more,
  Reach-Steps,
}
use refault.Executor.Machine.Safety.{Reach-Inv}
use refault.Executor.Machine.Stability.{
  IsOver, Ends, Later, Later-refl, Later-trans, wake-Later, spawn-Later, abort_local-Later,
  after_poll-Later, pop_one-Later, run-Later, levels-Later, starts-Later, push_new_node-Later,
}

still : (x y : TaskState) → IsOver x → Ends x y → IsOver y
still x y h k = ground arith

module _ {F : Type 0} {debug : Bool} where
  pub Call-Later :
      {c : Option ℕ} {ex ex' : Executor F} (p : ℕ) (sh : TaskShared)
      → Inv c ex
      → ex.shared p ≡ some sh
      → Call debug ex ex'
      → Later sh (ex'.shared p)
  Call-Later {ex} p sh v o (wakes q e) = wake-Later ex p sh o q e
  Call-Later {ex} p sh v o (spawns node future id e) = spawn-Later ex p sh o debug node future v e
  Call-Later {ex} p sh v o (aborts id dropped e) = abort_local-Later ex p sh o id e
  Call-Later {ex} p sh v o (creates_node id e) = push_new_node-Later ex p sh o id e
  Call-Later {ex} p sh v o (marks_stopped node is_final was e) =
      levels-Later ex p sh o node is_final was e
  Call-Later {ex} p sh v o (marks_started node was e) = starts-Later ex p sh o node was e
  Call-Later p sh v o (stops_simulation e) = rw (e, o) (Later-refl sh)
  Call-Later p sh v o (takes_id id after e eq) = rw (eq, o) (Later-refl sh)

  Step-Later :
      {s t : Machine F} (p : ℕ) (sh : TaskShared)
      → Inv s.current s.executor
      → s.executor.shared p ≡ some sh
      → Step debug s t
      → Later sh (t.executor.shared p)
  Step-Later p sh v o (calls c e) = Call-Later p sh v o c
  Step-Later {s} p sh v o (runs k rest q future sh' ex idle on queue e eq) =
      rw eq (run-Later (pop_front s.executor rest) p sh o debug k q future sh' e).0
  Step-Later {s} p sh v o (removes k rest ex idle on queue e eq) =
      rw eq (pop_one-Later (pop_front s.executor rest) p sh o debug k e)
  Step-Later {s} p sh v o (polls q result dropped ex busy e eq) =
      rw eq (after_poll-Later s.executor p sh o debug q result e)

  -- Every object that a waker or a handle points to stays allocated and keeps its task's id and
  -- node, through any number of steps from any state that a run reaches; and once its task is
  -- completed or aborted, it stays so.
  pub Steps-Later :
      {s t : Machine F} (p : ℕ) (sh : TaskShared)
      → Reach debug s
      → s.executor.shared p ≡ some sh
      → Steps debug s t
      → Later sh (t.executor.shared p)
  Steps-Later p sh r o done = rw o (Later-refl sh)
  Steps-Later p sh r o (more {t} st x) = elim (Option-cases (t.executor.shared p)) [
    | inl lost ↦ absurd (rw lost at (Steps-Later p sh r o st))
    | inr (sh', o') ↦
        Later-trans sh sh' _ (rw o' at (Steps-Later p sh r o st))
          (Step-Later p sh' (Reach-Inv (Reach-Steps r st)) o' x)
  ]

  Step-current :
      {s t : Machine F} (p : ℕ) (sh : TaskShared)
      → s.executor.shared p ≡ some sh
      → IsOver sh.state
      → s.current ≢ some p
      → Step debug s t
      → t.current ≢ some p
  Step-current p sh o over other (calls c e) now = other (sym e ∙ now)
  Step-current {s} p sh o over other (runs k rest q future sh' ex idle on queue e eq) now =
      let (_, object, st) = run-Later (pop_front s.executor rest) p sh o debug k q future sh' e in
      let same : some q ≡ some p = sym (ap (λ (m : Machine F). m.current) eq) ∙ now in ground arith
  Step-current p sh o over other (removes k rest ex idle on queue e eq) now =
      cc (ap (λ (m : Machine F). m.current) eq)
  Step-current p sh o over other (polls q result dropped ex busy e eq) now =
      cc (ap (λ (m : Machine F). m.current) eq)

  -- A task that is completed or aborted, and not being polled at that moment, is never polled
  -- again, however the run goes on.
  pub Steps-never_polled :
      {s t : Machine F} (p : ℕ) (sh : TaskShared)
      → Reach debug s
      → s.executor.shared p ≡ some sh
      → IsOver sh.state
      → s.current ≢ some p
      → Steps debug s t
      → t.current ≢ some p
  Steps-never_polled p sh r o over other done = other
  Steps-never_polled p sh r o over other (more {t} st x) =
      elim (Option-cases (t.executor.shared p)) [
        | inl lost ↦ absurd (rw lost at (Steps-Later p sh r o st))
        | inr (sh', o') ↦
            Step-current p sh' o'
              (still sh.state sh'.state over (rw o' at (Steps-Later p sh r o st)).2)
              (Steps-never_polled p sh r o over other st) x
      ]
