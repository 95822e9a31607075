-- ===== src/RunSimulation/Examples.antt =====
-- A simulation whose one task sleeps twice and then ends.
use refault.Prelude.{
  ℕ, zero, suc, ◌+◌, ◌≤◌, ◌<◌, ◌≡◌, refl, subst, true, false, List, [], Option, Option-cases, some,
  none, inl, inr, Result, Result-cases, ok, panic, ◌>>=◌, ==_refl, ◌⊎◌, arith,
}
use refault.Events.{Event, recording}
use refault.Executor.State.{Executor, new_executor}
use refault.Executor.Tasks.{spawn, wake, abort_local}
use refault.Executor.Nodes.{mark_stopped}
use refault.Executor.Polling.{
  Poll, pending, poll_ready, next_task, after_poll, pop_one, pop_loop, start,
}
use refault.Executor.Machine.{spawns}
use refault.Executor.Choosing.{Known}
use refault.Executor.Stopping.Actions.{Acts, rest}
use refault.Simulators.{SimCxl, for_all_simulators, visit_from}
use refault.Simulation.{Cx, node_scope}
use refault.Simulation.Stopping.{
  stop_simulation, stop_from, stop_node, stop_inside, abort_all, abort_task, drop_task,
}
use refault.Simulation.Stopping.Slots.{AllThere, SameSlots}
use refault.Simulation.Stopping.Returning.{stop_simulation-Returns}
use refault.Context.{SimulationEnd, install, destroy}
use refault.Time.Table.{Table, table, table-QueueLaws}
use refault.Time.{
  TimeScheduler, new_sleep, poll_sleep, new_scheduler, fire_due, wait_until_next_future_ready,
}
use refault.MainLoop.{run_current_context, round, poll_task, drop_polled, pass_time}
use refault.MainLoop.UserCode.{UserActs, more, done, executes, sleeps, polls_sleep, others}
use refault.MainLoop.Wakers.{Good, UserActs-Good}
use refault.MainLoop.Idle.{IsIdle, run_current_context-IsIdle}
use refault.MainLoop.Waiting.{Kept}
use refault.MainLoop.Ending.{run_current_context-ends}
use refault.MainLoop.Program.{PollsWell, DropsWell}
use refault.RunSimulation.{Simulated, context_of, enter, run_simulation}
use refault.RunSimulation.Returning.{start_world, start_world-Good, run_simulation-Returns}

abbrev Sim : Type 0
Sim = Simulated ℕ ℕ (List Event) Table ℕ

abbrev Context : Type 0
Context = SimCxl ℕ (Cx ℕ (List Event))

abbrev drop_cancelled : ℕ → Context → Result Context
drop_cancelled future cx = ok cx

abbrev notify : ℕ → Context → Result (ℕ × Context)
notify s cx = ok (s, cx)

abbrev iterate : List ℕ → List ℕ
iterate xs = xs

drop-Acts :
    (future : ℕ) (cx cx' : Context)
    → drop_cancelled future cx ≡ ok cx'
    → Acts ℕ true cx.rest.executor cx'.rest.executor
drop-Acts future cx cx' e = let same : cx ≡ cx' = cc in rw (← same) rest

stop-Acts :
    (s s' : ℕ) (cx cx' : Context)
    → notify s cx ≡ ok (s', cx')
    → Acts ℕ true cx.rest.executor cx'.rest.executor
stop-Acts s s' cx cx' e = let same : cx ≡ cx' = cc in rw (← same) rest

cancels :
    (future : ℕ) (cx : Context)
    → (cx' : Context) × (drop_cancelled future cx ≡ ok cx') × SameSlots cx.simulators cx'.simulators
cancels future cx = (cx, refl, (refl, λ k. refl))

notifies :
    (s : ℕ) (cx : Context)
    → (s' : ℕ) × (cx' : Context) × (notify s cx ≡ ok (s', cx'))
      × SameSlots cx.simulators cx'.simulators
notifies s cx = (s, cx, refl, (refl, λ k. refl))

abbrev drop_future : ℕ → Sim → Result Sim
drop_future future w = ok w

abbrev with_steps : Sim → ℕ → Sim
with_steps w n = record w { rest = record w.rest { rest = n } }

-- A sleep for 5, at the address `n`.
snooze : ℕ → ℕ → Sim → ℕ → Result (Poll ℕ × Sim)
unfolding new_sleep poll_sleep
snooze p future w n = do
  (due, t) ← poll_sleep table (new_sleep table w.time_scheduler n (w.time_scheduler.now + 5)) n p
  ok (pending future, with_steps (record w { time_scheduler = t }) n)

poll_steps : ℕ → ℕ → Sim → ℕ → Result (Poll ℕ × Sim)
unfolding snooze
poll_steps p future w zero = ok (poll_ready future, w)
poll_steps p future w (suc n) = elim (w.time_scheduler.sleeps n) [
  | none ↦ snooze p future w n
  | some s ↦ ok (pending future, with_steps w n)
]

abbrev poll : ℕ → ℕ → Sim → Result (Poll ℕ × Sim)
poll p future w = poll_steps p future w w.rest.rest

abbrev budget : SimCxl ℕ ℕ → ℕ
budget r = r.rest

abbrev Fine : SimCxl ℕ ℕ → Type 0
Fine r = AllThere r.simulators

drops : DropsWell true table table-QueueLaws budget Fine drop_future
drops future w g borrowed fine = (w, refl, (done, fine, inr (refl, refl, refl)))

first_poll :
    (t : TimeScheduler Table) (n at p : ℕ)
    → (r : Option ℕ × TimeScheduler Table) × (poll_sleep table (new_sleep table t n at) n p ≡ ok r)
unfolding poll_sleep new_sleep
first_poll t n at p = elim (Result-cases (poll_sleep table (new_sleep table t n at) n p)) [
  | inl r ↦ r
  | inr (why, raised) ↦ absurd (ground arith)
]

polled-Known : (w : Sim) (p : ℕ) → Good true table table-QueueLaws (some p) w → Known w.executor p
polled-Known w p g = ground (arith, g.executes_well.slots p, ==_refl p)

snoozes :
    (p future : ℕ) (w : Sim) (n : ℕ)
    → Good true table table-QueueLaws (some p) w
    → w.context_borrowed ≡ false
    → Fine w.rest
    → w.rest.rest ≡ suc n
    → w.time_scheduler.sleeps n ≡ none
    → (r : Poll ℕ) × (w' : Sim) × (poll p future w ≡ ok (r, w'))
      × (UserActs true table w w' × Fine w'.rest × (w'.rest.rest ≡ n))
unfolding poll_steps snooze
snoozes p future w n g unborrowed fine steps free =
    let ((due, t), woke) = first_poll w.time_scheduler n (w.time_scheduler.now + 5) p in
    let w1 : Sim = record w {
      time_scheduler = new_sleep table w.time_scheduler n (w.time_scheduler.now + 5);
    } in
    let w2 : Sim = record w { time_scheduler = t } in
    (
      pending future,
      with_steps w2 n,
      rw (steps, poll_steps, free, snooze, woke) refl,
      (
        more
            (more (more done (sleeps n (w.time_scheduler.now + 5) free refl))
              (polls_sleep n p due t unborrowed (polled-Known w p g) woke refl))
            (others (record w.rest { rest = n }) refl),
        fine,
        refl,
      ),
    )

polls_from :
    (p future : ℕ) (w : Sim) (n : ℕ)
    → Good true table table-QueueLaws (some p) w
    → w.context_borrowed ≡ false
    → Fine w.rest
    → w.rest.rest ≡ n
    → (r : Poll ℕ) × (w' : Sim) × (poll p future w ≡ ok (r, w'))
      × (UserActs true table w w'
          × Fine w'.rest
          × ((budget w'.rest < budget w.rest)
              ⊎ ((budget w'.rest ≡ budget w.rest)
                  × (w'.executor ≡ w.executor)
                  × (w'.time_scheduler ≡ w.time_scheduler))))
unfolding poll_steps
polls_from p future w zero g unborrowed fine steps =
    (poll_ready future, w, ground arith, (done, fine, inr (refl, refl, refl)))
polls_from p future w (suc n) g unborrowed fine steps =
    elim (Option-cases (w.time_scheduler.sleeps n)) [
      | inl free ↦
          let (r, w', e, (acts, fine', left)) = snoozes p future w n g unborrowed fine steps free in
          (r, w', e, (acts, fine', inl (omega arith)))
      | inr (s, there) ↦ (
        pending future,
        with_steps w n,
        rw (steps, poll_steps, there) refl,
        (more done (others (record w.rest { rest = n }) refl), fine, inl (omega arith)),
      )
    ]

polls : PollsWell true table table-QueueLaws budget Fine poll
polls p future w g unborrowed fine = polls_from p future w w.rest.rest g unborrowed fine refl

init_fn : Sim → Result Sim
unfolding spawn
init_fn w = do (id, ex) ← spawn true w.executor 0 7; ok (record w { executor = ex })

beginning : Sim
beginning = start_world table [] 100 2

started : (r : ℕ × Executor ℕ) × (spawn true beginning.executor 0 7 ≡ ok r)
unfolding spawn beginning new_executor
started = (_, refl)

nothing_there : AllThere {S = ℕ} []
nothing_there k below = absurd (omega arith)

begins :
    (w1 : Sim) × (init_fn (start_world table [] 100 2) ≡ ok w1)
    × UserActs true table (start_world table [] 100 2) w1
    × Fine w1.rest
unfolding init_fn beginning
begins =
    let ((id, ex), e) = started in
    (
      record beginning { executor = ex },
      rw (e) refl,
      more done (executes ex (spawns 0 7 id e) (inl refl) refl),
      nothing_there,
    )

run_simulation-Returns_example :
    (fuel : ℕ) × (end : SimulationEnd) × (run_simulation table true recording drop_cancelled notify
        notify iterate drop_cancelled poll drop_future init_fn fuel [] 100 2
      ≡ ok end)
    × (100 ≤ end.time_elapsed)
run_simulation-Returns_example =
    run_simulation-Returns table true table-QueueLaws recording drop_cancelled notify notify iterate
      drop_cancelled poll drop_future init_fn drop-Acts stop-Acts (λ xs i. refl)
      (λ future cx v. cancels future cx) (λ s cx v. notifies s cx) cancels (λ h. (_, refl)) budget
      Fine (λ r fine. fine) (λ h e. (_, refl)) polls drops [] 100 2 begins

elapsed_of : Result SimulationEnd → ℕ
elapsed_of (ok end) = end.time_elapsed
elapsed_of (panic why) = 0

-- It ends after two sleeps of 5, and ten rounds are enough.
elapsed :
    elapsed_of (
      run_simulation table true recording drop_cancelled notify notify iterate drop_cancelled poll
        drop_future init_fn 10 [] 100 2)
    ≡ 110
unfolding elapsed_of run_simulation init_fn install new_executor enter new_scheduler
    run_current_context round poll_steps wait_until_next_future_ready destroy stop_simulation
    stop_node stop_from stop_inside node_scope mark_stopped abort_all abort_task drop_task
    for_all_simulators visit_from abort_local wake next_task after_poll pop_one pop_loop start
    poll_task drop_polled pass_time spawn snooze poll_sleep new_sleep fire_due
elapsed = refl

abbrev the_world : Result Sim → Sim
the_world (ok w) = w
the_world (panic why) = beginning

begun : Sim
unfolding beginning init_fn
begun = the_world (init_fn beginning)

finished : Sim
unfolding begun run_current_context
finished = the_world (run_current_context true table recording poll drop_future 10 begun)

finishes : run_current_context true table recording poll drop_future 10 begun ≡ ok finished
unfolding begun finished run_current_context init_fn new_executor new_scheduler round poll_steps
    wait_until_next_future_ready wake next_task after_poll pop_one pop_loop start poll_task
    drop_polled pass_time spawn snooze poll_sleep new_sleep fire_due
finishes = refl

run_current_context-IsIdle_example : IsIdle true table table-QueueLaws recording finished
run_current_context-IsIdle_example =
    run_current_context-IsIdle true table table-QueueLaws recording poll drop_future 10 begun
      finished finishes

begun-Good : Good true table table-QueueLaws none begun
unfolding begun
begun-Good =
    let (w1, e, acts, fine) = begins in
    let same : w1 ≡ begun = rw (e) refl in
    subst (Good true table table-QueueLaws none) same (
      UserActs-Good true table table-QueueLaws (start_world table [] 100 2) w1
        (start_world-Good table true table-QueueLaws [] 100 2) acts)

run_current_context-ends_example :
    (fuel : ℕ) × (w' : Sim) × (run_current_context true table recording poll drop_future fuel begun
      ≡ ok w')
    × IsIdle true table table-QueueLaws recording w'
    × Kept true table table-QueueLaws recording budget Fine begun w'
unfolding begun new_executor
run_current_context-ends_example =
    run_current_context-ends true table table-QueueLaws recording budget Fine (λ h e. (_, refl))
      poll drop_future polls drops begun begun-Good nothing_there refl

the_context : Context
unfolding begun
the_context = context_of begun

stop_simulation-Returns_example :
    (cx' : Context) × (stop_simulation drop_cancelled notify notify iterate the_context ≡ ok cx')
    × SameSlots the_context.simulators cx'.simulators
unfolding the_context begun new_executor
stop_simulation-Returns_example =
    stop_simulation-Returns {cur = none} drop_cancelled notify notify iterate drop-Acts stop-Acts
      (λ xs i. refl) (λ future cx v. cancels future cx) (λ s cx v. notifies s cx) the_context
      begun-Good.executes_well nothing_there
