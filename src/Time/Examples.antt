-- ===== src/Time/Examples.antt =====
-- Runs of src/time.rs on a small queue.
use refault.Prelude.{
  ℕ, ◌+◌, ◌≡◌, refl, Option, none, some, Result, ok, List, [], ◌∷◌, arith, update, ◌>>=◌,
}
use refault.Events.{recording}
use refault.Time.Table.{Table, table, table-QueueLaws}
use refault.Time.Sleeping.{TInv, Polled, poll_sleep_lem}
use refault.AgnosticLite.{Timeout, sim_node_bound, poll_timeout, after_inner}
use refault.AgnosticLite.Deadlines.{Pending, poll_timeout_lem}
use refault.Time.Advancing.{Advance, wait_until_next_future_ready_lem}
use refault.Time.{TimeScheduler, waiting, poll_sleep, wait_until_next_future_ready}

-- Three sleeps: until 5 and twice until 7, all polled at instant 2 by task 9.
abbrev three : TimeScheduler Table
three = record {
  upcoming_events = table.push (table.push (table.push table.new 0 7) 1 5) 2 7;
  now = 2;
  sleeps =
      update (update (update (λ _. none) 0 (some (waiting 9))) 1 (some (waiting 9))) 2
        (some (waiting 9));
}

three-TInv : TInv table three
three-TInv k = ground arith

poll_sleep_lem_example : Polled table table-QueueLaws three 1 4 (poll_sleep table three 1 4)
poll_sleep_lem_example = poll_sleep_lem table table-QueueLaws three 1 4 three-TInv

abbrev count_wakes : List ℕ → ℕ → Result (List ℕ)
count_wakes e w = ok (w ∷ e)

wait_until_next_future_ready_lem_example :
    Advance table table-QueueLaws count_wakes recording three 100 [] []
      (wait_until_next_future_ready table count_wakes recording three 100 [] [])
wait_until_next_future_ready_lem_example =
    wait_until_next_future_ready_lem table table-QueueLaws count_wakes recording three 100 [] []
      three-TInv

-- The second of the three sleeps, as the one of a timeout on node 3 in simulation 1.
abbrev limited : Timeout ℕ
unfolding sim_node_bound
limited = record { fut = 0; sleep = sim_node_bound 1 3 1 }

abbrev poll_counter : ℕ → ℕ → TimeScheduler Table → Result (Option ℕ × ℕ × TimeScheduler Table)
poll_counter fut waker t = ok (none, fut + 1, t)

poll_timeout_lem_example :
    (t' : TimeScheduler Table) × (t'.now ≡ 2)
    × Pending table table-QueueLaws 1 3 poll_counter limited t' 1 5
    × (poll_timeout table 1 3 poll_counter limited 4 three
        ≡ (poll_counter 0 4 t' >>= λ inner. ok (after_inner table 1 3 poll_counter limited inner)))
unfolding limited
poll_timeout_lem_example =
    poll_timeout_lem table table-QueueLaws 1 3 poll_counter limited three 1 5 4
      (refl, three-TInv, refl)
