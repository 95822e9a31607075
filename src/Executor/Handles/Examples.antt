-- ===== src/Executor/Handles/Examples.antt =====
-- A task whose future counts down, and returns 7 at zero.
use refault.Prelude.{ℕ, zero, suc, ◌≡◌, refl, true, false, Option, none, some, Result, ok}
use refault.Executor.Handles.{
  Oneshot, OneshotLaws, ReceiverPoll, not_ready, canceled, value, Task, joined, new_task, run_task,
  send_output, abandon, poll_handle,
}
use refault.Executor.Handles.Results.{
  running, returned, Life, spawned, polled, completed, handle-Learns,
}

-- The state of a channel is what its receiver gets.
abbrev channel : Oneshot (ReceiverPoll ℕ) ℕ
channel = record {
  new = not_ready;
  send = λ c x. value x;
  drop_sender = λ c. canceled;
  poll = λ c. c;
}

abbrev channel_laws : OneshotLaws channel
channel_laws = record { poll-new = refl; poll-send = λ x. refl; poll-drop_sender = refl }

abbrev count_down : ℕ → ℕ → Result (Option ℕ × ℕ × ℕ)
count_down zero polls = ok (some 7, 0, suc polls)
count_down (suc n) polls = ok (none, n, suc polls)

abbrev task1 : Task ℕ
task1 = record { snd = true; fut = 0 }

abbrev task_end : Task ℕ
task_end = record { snd = false; fut = 0 }

life1 : Life channel count_down 1 running task1 not_ready
unfolding run_task send_output new_task
life1 = polled {task = record { snd = true; fut = 1 }} {c = not_ready} 0 1 spawned refl refl

life_end : Life channel count_down 1 (returned 7) task_end (value 7)
unfolding run_task send_output abandon
life_end =
    completed {task = task1} {task' = task_end} {c = not_ready} {c' = value 7} 1 2 7 life1 refl refl

handle-Learns_example : poll_handle channel (value 7) ≡ joined 7
handle-Learns_example = handle-Learns channel count_down channel_laws life_end
