-- ===== src/Executor.antt =====
-- src/executor.rs: tasks, nodes, the ready queue and the main loop.
mod Examples
pub mod State
pub mod Tasks
pub mod Polling
pub mod Nodes
pub mod Invariant
pub mod Machine
pub mod Stopping
pub mod Turns
pub mod Handles
pub mod Choosing
