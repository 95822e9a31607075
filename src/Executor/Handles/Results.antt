-- ===== src/Executor/Handles/Results.antt =====
-- What a handle learns of its task.
use refault.Prelude.{◌≡◌, refl, Bool, true, false, Option, none, some, Result, Returns, ok, arith}
use refault.Executor.Handles.{
  Oneshot, OneshotLaws, Task, HandlePoll, pending, task_aborted, joined, new_task, send_output,
  run_task, abandon, handle_poll, poll_handle,
}

-- How a task stands: it may still be polled, it returned a value, or it was dropped before that.
pub data Standing (T : Type 0) : Type 0 where
  running aborted : Standing T
  returned : T → Standing T

module _ {C T Fut W : Type 0} (ch : Oneshot C T)
    (poll_fut : Fut → W → Result (Option T × Fut × W)) where
  -- The life of a task: the executor polls it until it is ready or aborted, and drops it then.
  pub data Life (fut : Fut) : Standing T → Task Fut → C → Type 0 where
    spawned : Life fut running ((new_task ch poll_fut fut).0) ((new_task ch poll_fut fut).1)
    polled :
        {task task' : Task Fut} {c c' : C} {fut' : Fut} (w w' : W)
        → Life fut running task c
        → poll_fut task.fut w ≡ ok (none, fut', w')
        → run_task ch poll_fut task c w ≡ ok (false, task', c', w')
        → Life fut running task' c'
    completed :
        {task task' : Task Fut} {c c' : C} {fut' : Fut} (w w' : W) (x : T)
        → Life fut running task c
        → poll_fut task.fut w ≡ ok (some x, fut', w')
        → run_task ch poll_fut task c w ≡ ok (true, task', c', w')
        → Life fut (returned x) task' (abandon ch poll_fut task' c')
    dropped :
        {task : Task Fut} {c : C}
        → Life fut running task c
        → Life fut aborted task (abandon ch poll_fut task c)

  module _ (laws : OneshotLaws ch) where
    abbrev pub Learns : Standing T → HandlePoll T → Type 0
    Learns running p = p ≡ pending
    Learns aborted p = p ≡ task_aborted
    Learns (returned x) p = p ≡ joined x

    run_task-parts :
        (task task' : Task Fut) (c c' : C) (fut' : Fut) (w w' w'' : W) (o : Option T) (ready : Bool)
        → task.snd ≡ true
        → poll_fut task.fut w ≡ ok (o, fut', w')
        → run_task ch poll_fut task c w ≡ ok (ready, task', c', w'')
        → (c' ≡ (elim o [ none ↦ c | some x ↦ ch.send c x ]))
          × (task'.snd ≡ (elim o [ none ↦ true | some x ↦ false ]))
    unfolding run_task send_output
    run_task-parts task task' c c' fut' w w' w'' none ready has e e' = ground arith
    run_task-parts task task' c c' fut' w w' w'' (some x) ready has e e' = ground arith

    -- While the task may still be polled, its sender is there and unused.
    running-new :
        {fut : Fut} {task : Task Fut} {c : C}
        → Life fut running task c
        → (c ≡ ch.new) × (task.snd ≡ true)
    unfolding new_task
    running-new spawned = (refl, refl)
    running-new (polled {task} {task'} {c} {c'} {fut'} w w' life e e') =
        let (same, has) = running-new life in
        let (same', has') = run_task-parts task task' c c' fut' w w' w' none false has e e' in
        (cc, has')

    -- At each point in the life of a task its handle gets: pending while the task may still be polled, the
    -- value of its future once this has returned it, and `TaskAborted` if the task was dropped before.
    pub handle-Learns :
        {fut : Fut} {standing : Standing T} {task : Task Fut} {c : C}
        → Life fut standing task c
        → Learns standing (poll_handle ch c)
    unfolding poll_handle handle_poll abandon new_task
    handle-Learns spawned = rw (laws.poll-new) refl
    handle-Learns (polled {task} {task'} {c} {c'} {fut'} w w' life e e') =
        let (same, has) = running-new life in
        let (same', has') = run_task-parts task task' c c' fut' w w' w' none false has e e' in
        rw (same', same, laws.poll-new) refl
    handle-Learns (dropped {task} {c} life) =
        let (same, has) = running-new life in rw (has, same, laws.poll-drop_sender) refl
    handle-Learns (completed {task} {task'} {c} {c'} {fut'} w w' x life e e') =
        let (same, has) = running-new life in
        let (same', has') = run_task-parts task task' c c' fut' w w' w' (some x) true has e e' in
        rw (has', same', same, laws.poll-send x) refl

    -- While a task may still be polled, `Task::run` returns whenever the poll of its future does.
    pub run_task-Returns :
        {fut : Fut} {task : Task Fut} {c : C} (w : W) (polled : Option T × Fut × W)
        → Life fut running task c
        → poll_fut task.fut w ≡ ok polled
        → Returns (run_task ch poll_fut task c w)
    unfolding run_task send_output
    run_task-Returns {fut} {task} {c} w (none, fut', w') life e =
        ((false, record { snd = task.snd; fut = fut' }, c, w'), rw (e) refl)
    run_task-Returns {fut} {task} {c} w (some x, fut', w') life e =
        let (same, has) = running-new life in
        ((true, record { snd = false; fut = fut' }, ch.send c x, w'), rw (e, has) refl)
