-- ===== src/Lib.antt =====
-- refault: a deterministic simulation framework for asynchronous Rust programs.
--
-- The executor keeps tasks in nodes and runs them one at a time from a queue; when none is ready, the
-- time scheduler moves the simulated time to the next deadline of a `Sleep`. Simulators are told when
-- nodes are created, stopped and started. All of it reports events, and `SimBuilder::run` repeats the
-- simulation and compares the events of the runs.
--
-- - Prelude: Boolean tests, lists over native numbers, panics as values (`Result`).
-- - Ids: src/id.rs, `new_id`, `new_range`, `get`. Counters have 64 bits; `debug` says whether an
--   overflow panics or wraps around.
-- - Events: src/event.rs, the handlers as records of `handle_event` and `finalize`. Events.Replay
--   holds the comparison of two runs from src/sim_builder.rs.
-- - Time: src/time.rs, `poll_sleep`, `drop_sleep`, `wait_until_next_future_ready`. Nanoseconds have no
--   upper bound. The priority queue is a parameter with the laws of its documentation (Time.Queue).
--   `fire_due` has fuel for one round more than the queue has entries, and a round removes one.
-- - Executor: src/executor.rs. State, Tasks (`wake`, `spawn`, `abort_local`), Polling (`next_task` and
--   `after_poll`, the two halves of a turn of the main loop), Nodes. Invariant has the invariant and
--   its preservation, Machine the steps of a whole run, Stopping what code of the user may do to the
--   executor and what the stops of nodes mean for it, Turns the same for the steps of the main loop
--   (the functions themselves are in Simulation.Stopping). Handles has `Task::run`
--   and `TaskHandle`; the oneshot channel between them is a parameter with its documented laws.
-- - Simulators: src/simulator.rs, `add_simulator`, `with_simulator`, `for_all_simulators`, `PerNode`.
-- - Simulation: src/lib.rs and src/node_id.rs, `node_scope`, `spawn_task_on_node` and `create_node`,
--   which go through the executor, the event handler and the simulators. Simulation.Stopping has
--   `stop_node`, `start_node`, `stop_simulation` and `abort_inner` over all of these, with the destructors
--   and the callbacks of the simulators as parameters that may act on the whole context; Simulation.Turns
--   the runs in which the main loop alternates with code of the user; Simulation.Handles the methods of
--   `NodeId` and of `TaskHandle`; Simulation.NodeSimulators the access to the entries of a `PerNode`.
-- - Context: src/context_install_guard.rs, `install` and `destroy` on the thread locals. The loop over
--   the simulators has fuel for one round more than there are simulators.
-- - Net: src/net.rs, `Socket::open`, `send`, `receive` and the destructor, `Net` as a simulator, `Inboxes`.
--   Inboxes are kept by address, as an `Rc` does. The bounded channel is a parameter with the laws of
--   its documentation (Net.Channel), and the type of a packet is the number that `packet_type_id`
--   returns. A delivery is the task that `Inboxes::enqueue` spawns on the first node.
--   Net.Machine has the steps of a whole network, Net.Queues the abstract state and its steps. The
--   loop of `Net::start_node` has fuel for one round more than an inbox holds.
-- - Tower: src/tower.rs, the send and receive tasks of `Client::new`, `Client::call` and `run_server`.
--   Tower.Machine has the runs of a client and a server over a network that loses and reorders packets
--   and reports errors, with send functions that return at once, so that `Client::new` enters the responder of a
--   call before anything else happens. The replies that the client sends
--   to its oneshot channels are a list.
-- - SendBind: src/send_bind.rs, `NodeBound`, `SimBound`, and the anchors of simulations.
-- - AgnosticLite: src/agnostic_lite.rs, src/agnostic_lite/timeout.rs and src/agnostic_lite/joinhandle.rs,
--   the sleeps of the runtime and their reset, `Timeout`, `spawn` and `JoinHandle`, over Time, Simulation and SendBind.
-- - Interception: src/interception.rs, `clock_gettime` and `getrandom`. What they forward to, and the
--   random number generator, are parameters.
-- - SimBuilder: src/sim_builder.rs, the options and `run` over the traces of the runs.
-- - MainLoop: `run_current_context` of src/executor.rs whole, over the executor, the scheduler, the clock
--   and the state of the user (`World`). UserCode has what code of the user may do in it, Wakers the
--   invariant of the world, Program what is assumed of a program, Waiting, Rounds and Ending how the loop
--   goes on and ends. Its fuel is the number of rounds.
-- - RunSimulation: `run_simulation` of src/sim_builder.rs, with `install`, the main loop and `destroy`.
--
-- A panic unwinds and leaves no state. User code (futures, destructors, callbacks of simulators) is a
-- parameter that acts through the modelled operations. Addresses on the heap are the ids of the
-- tasks. Not modelled: what src/agnostic_lite.rs leaves as `todo!()` or only forwards, the
-- generation of random numbers, tracing, the closure of a `PerNode`, and the dynamic borrow checks of
-- `RefCell`, except for the borrow of the context while the main loop drops a task: UserCode says what a
-- destructor can do then, since anything that borrows the context again panics.
mod Prelude
pub mod Ids
pub mod Events
pub mod Time
pub mod Executor
pub mod Simulators
pub mod SendBind
pub mod Simulation
pub mod SimBuilder
pub mod Context
pub mod Net
pub mod Tower
pub mod AgnosticLite
pub mod Interception
pub mod MainLoop
pub mod RunSimulation
