-- ===== src/Executor/Stopping/Actions.antt =====
-- What code of the user may do to the executor: any sequence of calls of its interface, with the
-- interface's own functions run to their ends, and with more such code nested in them.
use refault.Prelude.{ℕ, ◌≡◌, Bool, true, false, List, [], ◌∷◌, Option, ok, contains}
use refault.Executor.State.{Executor, node_tasks}
use refault.Executor.Tasks.{abort_local}
use refault.Executor.Nodes.{mark_stopped}
use refault.Executor.Machine.{Call, wakes, marks_stopped}

module _ {F : Type 0} {debug : Bool} where
  -- A call that is not the first part of `stop_node`.
  abbrev pub IsBasic : {ex ex' : Executor F} → Call debug ex ex' → Type 0
  IsBasic (wakes p e) = Unit
  IsBasic (marks_stopped node is_final was e) = ⊥
  IsBasic _ = Unit

mutual
  pub data Act (F : Type 0) (debug : Bool) : Executor F → Executor F → Type 0 where
    basic : {ex ex' : Executor F} (c : Call debug ex ex') → IsBasic c → Act F debug ex ex'
    -- `stop_node` on a node that is not running, and on one that is: the tasks on the node, in any
    -- order, are aborted and dropped, then the simulators are notified
    stops_stopped :
        {ex ex' : Executor F} (node : ℕ) (is_final : Bool)
        → mark_stopped ex node is_final ≡ ok (false, ex')
        → Act F debug ex ex'
    stops_running :
        {ex ex1 ex2 ex' : Executor F} (node : ℕ) (is_final : Bool) (ids : List ℕ)
        → mark_stopped ex node is_final ≡ ok (true, ex1)
        → ((i : ℕ) → contains ids i ≡ contains (node_tasks ex1.nodes node) i)
        → AbortAll F debug ids ex1 ex2
        → Acts F debug ex2 ex'
        → Act F debug ex ex'

  pub data Acts (F : Type 0) (debug : Bool) : Executor F → Executor F → Type 0 where
    rest : {ex : Executor F} → Acts F debug ex ex
    act_then :
        {ex ex1 ex' : Executor F} → Act F debug ex ex1 → Acts F debug ex1 ex' → Acts F debug ex ex'

  pub data AbortAll (F : Type 0) (debug : Bool) : List ℕ → Executor F → Executor F → Type 0 where
    all_aborted : {ex : Executor F} → AbortAll F debug [] ex ex
    abort_next :
        {ex ex1 ex2 ex' : Executor F} {id : ℕ} {ids : List ℕ} (dropped : Option F)
        → abort_local ex id ≡ ok (dropped, ex1)
        → Acts F debug ex1 ex2
        → AbortAll F debug ids ex2 ex'
        → AbortAll F debug (id ∷ ids) ex ex'
