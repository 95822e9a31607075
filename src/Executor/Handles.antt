-- ===== src/Executor/Handles.antt =====
-- src/executor.rs: `Task` and `TaskHandle`. The task sends what its future returns to its handle.
mod Examples
pub mod Results
use refault.Prelude.{
  ◌≡◌, Bool, true, false, Option, none, some, Result, ok, panic, unwrap_none, ◌>>=◌,
}

-- What a poll of the receiver of a oneshot channel returns.
pub data ReceiverPoll (T : Type 0) : Type 0 where
  not_ready canceled : ReceiverPoll T
  value : T → ReceiverPoll T

-- The oneshot channel of the crate futures; `send` uses its sender up.
pub record Oneshot (C T : Type 0) : Type 0 where
  pub new : C
  pub send : C → T → C
  pub drop_sender : C → C
  pub poll : C → ReceiverPoll T

-- What its documentation says.
pub record OneshotLaws {C T : Type 0} (ch : Oneshot C T) : Type 0 where
  pub poll-new : ch.poll ch.new ≡ not_ready
  pub poll-send : (x : T) → ch.poll (ch.send ch.new x) ≡ value x
  pub poll-drop_sender : ch.poll (ch.drop_sender ch.new) ≡ canceled

-- `snd` says whether the task still has its sender.
pub record Task (Fut : Type 0) : Type 0 where
  pub snd : Bool
  pub fut : Fut

-- `Poll<Result<T, TaskAborted>>`
pub data HandlePoll (T : Type 0) : Type 0 where
  pending task_aborted : HandlePoll T
  joined : T → HandlePoll T

module _ {C T Fut W : Type 0} (ch : Oneshot C T)
    (poll_fut : Fut → W → Result (Option T × Fut × W)) where
  -- The channel and the task that `Executor::spawn` makes for a future.
  unfoldable pub new_task : Fut → Task Fut × C
  new_task fut = (record { snd = true; fut = fut }, ch.new)

  send_output : Bool → C → Option T × Fut × W → Result (Bool × Task Fut × C × W)
  send_output snd c (none, fut, w) = ok (false, record { snd = snd; fut = fut }, c, w)
  send_output false c (some x, fut, w) = panic unwrap_none
  send_output true c (some x, fut, w) = ok (true, record { snd = false; fut = fut }, ch.send c x, w)

  -- `Task::run`: whether it is ready.
  unfoldable pub run_task : Task Fut → C → W → Result (Bool × Task Fut × C × W)
  unfolding send_output
  run_task task c w = do polled ← poll_fut task.fut w; send_output task.snd c polled

  -- What dropping a task does to its channel.
  unfoldable pub abandon : Task Fut → C → C
  abandon task c = elim task.snd [ true ↦ ch.drop_sender c | false ↦ c ]

module _ {T : Type 0} where
  -- `TaskHandle::poll`, and with it `JoinHandle::poll` of src/agnostic_lite/joinhandle.rs
  unfoldable pub handle_poll : ReceiverPoll T → HandlePoll T
  handle_poll not_ready = pending
  handle_poll canceled = task_aborted
  handle_poll (value x) = joined x

unfoldable pub poll_handle : {C T : Type 0} → Oneshot C T → C → HandlePoll T
unfolding handle_poll
poll_handle ch c = handle_poll (ch.poll c)
