-- ===== src/AgnosticLite/Joining.antt =====
-- src/agnostic_lite.rs and src/agnostic_lite/joinhandle.rs: the spawner of the runtime and its handles.
use refault.Prelude.{
  ℕ, ◌≡◌, Bool, ◌&&◌, Result, ok, panic, assert_failed, ◌>>=◌, ◌==◌, if◌then◌else◌, arith,
  parts_of_ok,
}
use refault.Events.{EventHandler, task_spawned}
use refault.Executor.Tasks
use refault.Executor.Handles.{Oneshot, HandlePoll, poll_handle}
use refault.SendBind.{
  NodeBound, SimBound, sim_bound, node_bound, unwrap_sim_bound, unwrap_node_bound,
}
use refault.Simulators.{SimCxl}
use refault.Simulation.{Cx, spawn_here, spawn_task_on_node}
use refault.Simulation.Handles.{TaskHandle, abort_by_handle, detach}
use refault.AgnosticLite.{sim_node_bound, unwrap_both}

-- `JoinHandle`
abbrev pub JoinHandle : Type 0 → Type 0
JoinHandle C = SimBound (NodeBound (TaskHandle C))

module _ {S F H C T : Type 0} (ch : Oneshot C T) (anchor : ℕ) where
  -- `Spawner::spawn`, the same as `Spawner::spawn_local`.
  unfoldable pub spawner_spawn :
      Bool → EventHandler H → F → SimCxl S (Cx F H) → Result (JoinHandle C × SimCxl S (Cx F H))
  unfolding spawn_here sim_node_bound
  spawner_spawn debug handler future cx = do
    (id, cx') ← spawn_here debug handler future cx
    ok (sim_node_bound anchor cx'.rest.current_node (record { result = ch.new; abort = id }), cx')

  -- `JoinHandle::poll`
  unfoldable pub poll_join : JoinHandle C → SimCxl S (Cx F H) → Result (HandlePoll T)
  unfolding unwrap_both poll_handle
  poll_join join cx = do
    handle ← unwrap_both anchor cx.rest.current_node join
    ok (poll_handle ch handle.result)

  -- `JoinHandle::detach`
  unfoldable pub join_detach : JoinHandle C → SimCxl S (Cx F H) → Result (SimCxl S (Cx F H))
  unfolding unwrap_both detach
  join_detach join cx = do handle ← unwrap_both anchor cx.rest.current_node join; detach handle cx

  -- `JoinHandle::abort`
  unfoldable pub join_abort :
      (F → SimCxl S (Cx F H) → Result (SimCxl S (Cx F H)))
      → JoinHandle C
      → SimCxl S (Cx F H)
      → Result (SimCxl S (Cx F H))
  unfolding unwrap_both abort_by_handle
  join_abort drop_future join cx = do
    handle ← unwrap_both anchor cx.rest.current_node join
    abort_by_handle drop_future handle cx

module _ {S F H C T : Type 0} (ch : Oneshot C T) where
  spawn_here-node :
      (debug : Bool) (handler : EventHandler H) (future : F) (cx cx1 : SimCxl S (Cx F H)) (id : ℕ)
      → spawn_here debug handler future cx ≡ ok (id, cx1)
      → cx1.rest.current_node ≡ cx.rest.current_node
  unfolding spawn_here spawn_task_on_node
  spawn_here-node debug handler future cx cx1 id e =
      let (h, handled, e1) =
        parts_of_ok (handler.handle_event cx.rest.event_handler task_spawned) _ e in
      let ((id', ex), spawned, e2) =
        parts_of_ok (Tasks.spawn debug cx.rest.executor cx.rest.current_node future) _ e1 in
      ground arith

  -- The handle of a spawned task.
  handle_of :
      (anchor : ℕ) (debug : Bool) (handler : EventHandler H) (future : F)
      (cx cx1 : SimCxl S (Cx F H)) (join : JoinHandle C)
      → spawner_spawn ch anchor debug handler future cx ≡ ok (join, cx1)
      → (id : ℕ) × (spawn_here debug handler future cx ≡ ok (id, cx1))
        × (join
            ≡ sim_node_bound anchor cx.rest.current_node (record { result = ch.new; abort = id }))
  unfolding spawner_spawn
  handle_of anchor debug handler future cx cx1 join e =
      let ((id, cx'), spawned, e1) = parts_of_ok (spawn_here debug handler future cx) _ e in
      let same : cx' ≡ cx1 = cc in
      let node = spawn_here-node debug handler future cx cx' id spawned in (id, cc, ground arith)

  -- A spawned task can be aborted through its `JoinHandle` exactly in the simulation and on the node
  -- that spawned it, at any later time; this is then `TaskHandle::abort`, and else a panic.
  pub join_abort-abort_by_handle :
      (anchor : ℕ) (debug : Bool) (handler : EventHandler H) (future : F)
      (cx cx1 : SimCxl S (Cx F H)) (join : JoinHandle C)
      (drop_future : F → SimCxl S (Cx F H) → Result (SimCxl S (Cx F H)))
      → spawner_spawn ch anchor debug handler future cx ≡ ok (join, cx1)
      → (id : ℕ) × (spawn_here debug handler future cx ≡ ok (id, cx1))
        × ((here : ℕ) (later : SimCxl S (Cx F H))
            → (join_abort ch here drop_future join later ≡ (
                if (anchor == here) && (cx.rest.current_node == later.rest.current_node)
                then abort_by_handle drop_future (record { result = ch.new; abort = id }) later
                else panic assert_failed)))
  unfolding join_abort unwrap_both sim_node_bound unwrap_sim_bound unwrap_node_bound sim_bound
      node_bound
  join_abort-abort_by_handle anchor debug handler future cx cx1 join drop_future e =
      let (id, spawned, is) = handle_of anchor debug handler future cx cx1 join e in
      (id, spawned, λ here later. rw (is) (ground arith))
