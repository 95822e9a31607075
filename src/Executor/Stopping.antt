-- ===== src/Executor/Stopping.antt =====
-- src/executor.rs: what stopping nodes means for the executor, whatever code of the user runs in
-- between: destructors of dropped futures, and simulators' callbacks.
pub mod Actions
pub mod Quiet
pub mod Nesting
pub mod Lasting
pub mod Final
