-- ===== src/Executor/Examples.antt =====
-- A run of the executor: two tasks are spawned, one is aborted, the other polled to its end.
use refault.Prelude.{ℕ, ◌≡◌, ◌≢◌, refl, true, List, [], ◌∷◌, ◌++◌, some, none, Result, ok, panic}
use refault.Executor.State.{
  Executor, TaskShared, aborted_ready, store, waiting, ready, new_executor,
}
use refault.Executor.Tasks.{spawn, abort_local}
use refault.Executor.Polling.{run, removed, Popped, pop_one}
use refault.Executor.Invariant.{Inv}
use refault.Executor.Machine.{
  Machine, Step, Steps, done, more, Reach, start, next, calls, spawns, aborts, runs, removes,
  initial, pop_front,
}
use refault.Executor.Machine.Safety.{abort_task, OpIsSafe, Reach-Inv, Reach-OpIsSafe}
use refault.Executor.Machine.Stability.{Later}
use refault.Executor.Machine.Ending.{Steps-Later, Steps-never_polled}
use refault.Executor.Machine.Order.{popped, pushed, Steps-fifo}

abbrev value {ℓ} : {A : Type ℓ} → A → Result A → A
value d (ok a) = a
value d (panic e) = d

abbrev idle_at : Executor ℕ → Machine ℕ
idle_at ex = record { current = none; executor = ex }

abbrev ex0 : Executor ℕ
ex0 = initial.executor

spawn_in : Executor ℕ → ℕ → Executor ℕ
unfolding spawn
spawn_in ex future = (value (0, ex) (spawn true ex 0 future)).1

abort_in : Executor ℕ → ℕ → Executor ℕ
unfolding abort_local
abort_in ex id = (value (none, ex) (abort_local ex id)).1

after_pop : Popped ℕ → Machine ℕ
after_pop (run p future sh ex) = record { current = some p; executor = store ex p sh waiting }
after_pop (removed ex) = record { current = none; executor = ex }

taken_from : Popped ℕ → Executor ℕ
taken_from (run p future sh ex) = ex
taken_from (removed ex) = ex

pop_in : Executor ℕ → ℕ → List ℕ → Machine ℕ
unfolding pop_one after_pop
pop_in ex k later = after_pop (value (removed ex) (pop_one true (pop_front ex later) k))

-- Two tasks with the futures 7 and 8.
two : Machine ℕ
unfolding spawn_in new_executor
two = idle_at (spawn_in (spawn_in ex0 7) 8)

-- The first is aborted.
aborted_one : Machine ℕ
unfolding two abort_in
aborted_one = idle_at (abort_in two.executor 1)

-- It is removed from the queue.
removed_one : Machine ℕ
unfolding aborted_one pop_in
removed_one = pop_in aborted_one.executor 1 (2 ∷ [])

-- The second is polled.
polling_two : Machine ℕ
unfolding removed_one
polling_two = pop_in removed_one.executor 2 []

reach_two : Reach true two
unfolding two
reach_two =
    next {s = idle_at (spawn_in ex0 7)} (next start (calls (spawns 0 7 1 refl) refl))
      (calls (spawns 0 8 2 refl) refl)

abort-Step : Step true two aborted_one
unfolding aborted_one
abort-Step = calls (aborts 1 (some 7) refl) refl

reach_aborted : Reach true aborted_one
reach_aborted = next reach_two abort-Step

removing : Step true aborted_one removed_one
unfolding removed_one
removing = removes 1 (2 ∷ []) removed_one.executor refl refl refl refl refl

taking : Step true removed_one polling_two
unfolding polling_two
taking = runs 2 [] 2 8 (record { state = ready; id = 2; node = 0 }) _ refl refl refl refl refl

to_polling : Steps true aborted_one polling_two
to_polling = more (more done removing) taking

Reach-Inv_example : Inv aborted_one.current aborted_one.executor
Reach-Inv_example = Reach-Inv reach_aborted

-- The second task cannot be aborted into a failure while the first is in the queue.
Reach-OpIsSafe_example : OpIsSafe aborted_one (abort_task 2)
Reach-OpIsSafe_example = Reach-OpIsSafe reach_aborted (abort_task 2)

first_task : TaskShared
first_task = record { state = aborted_ready; id = 1; node = 0 }

first_object : aborted_one.executor.shared 1 ≡ some first_task
unfolding aborted_one first_task
first_object = refl

Steps-Later_example : Later first_task (polling_two.executor.shared 1)
Steps-Later_example = Steps-Later 1 first_task reach_aborted first_object to_polling

none_polled : aborted_one.current ≢ some 1
unfolding aborted_one
none_polled e = cc

Steps-never_polled_example : polling_two.current ≢ some 1
unfolding first_task
Steps-never_polled_example =
    Steps-never_polled 1 first_task reach_aborted first_object tt none_polled to_polling

whole_run : Steps true initial polling_two
unfolding two
whole_run =
    more {t = removed_one}
      (more {t = aborted_one}
        (more {t = two}
          (more {t = idle_at (spawn_in ex0 7)} (more done (calls (spawns 0 7 1 refl) refl))
            (calls (spawns 0 8 2 refl) refl))
          abort-Step)
        removing)
      taking

Steps-fifo_example :
    popped whole_run ++ polling_two.executor.ready_queue ≡ ex0.ready_queue ++ pushed whole_run
Steps-fifo_example = Steps-fifo start whole_run

-- What the run did.
popped_example : popped whole_run ≡ 1 ∷ 2 ∷ []
unfolding whole_run abort-Step removing taking
popped_example = refl

pushed_example : pushed whole_run ≡ 1 ∷ 2 ∷ []
unfolding whole_run abort-Step removing taking
pushed_example = refl
