-- ===== src/Executor/Turns.antt =====
-- src/executor.rs: the steps of the main loop itself, and what they mean for the tasks of stopped nodes.
pub mod Removing
pub mod Taking
use refault.Prelude.{Bool}
use refault.Executor.Machine.{Machine, Step, calls}

-- A step of the main loop itself.
abbrev pub IsMain : {F : Type 0} {debug : Bool} {s t : Machine F} → Step debug s t → Type 0
IsMain (calls c e) = ⊥
IsMain _ = Unit
