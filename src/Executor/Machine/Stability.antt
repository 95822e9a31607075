-- ===== src/Executor/Machine/Stability.antt =====
-- What no step can undo: a task's identity, its end, and the end of the simulation.
use refault.Prelude.{ℕ, suc, ◌≡◌, refl, Bool, Option, some, none, arith, ok, ◌∙◌}
use refault.Executor.State.{Executor, TaskShared, TaskState, store, ready, waiting}
use refault.Executor.Tasks.{wake, spawn, abort_local}
use refault.Executor.Polling.{Poll, run, removed, pop_one, after_poll}
use refault.Executor.Nodes.{push_new_node, mark_stopped, mark_started}
use refault.Executor.Invariant.{Inv}

-- The states of a task that will not be polled again: completed or aborted, the entry there or not.
abbrev pub IsOver : TaskState → Type 0
IsOver ready = ⊥
IsOver waiting = ⊥
IsOver _ = Unit

abbrev pub Ends : TaskState → TaskState → Type 0
Ends ready st = Unit
Ends waiting st = Unit
Ends _ st = IsOver st

-- A shared object later on: the same task on the same node, and over if it was over.
abbrev pub Later : TaskShared → Option TaskShared → Type 0
Later sh none = ⊥
Later sh (some sh') = (sh'.id ≡ sh.id) × (sh'.node ≡ sh.node) × Ends sh.state sh'.state

pub Later-refl : (sh : TaskShared) → Later sh (some sh)
Later-refl sh = (refl, refl, same sh.state)
  where
    same : (st : TaskState) → Ends st st
    same ready = tt
    same waiting = tt
    same _ = tt

pub Later-trans :
    (a b : TaskShared) (c : Option TaskShared) → Later a (some b) → Later b c → Later a c
Later-trans a b none h k = k
Later-trans a b (some c) h k = (k.0 ∙ h.0, k.1 ∙ h.1, through a.state b.state c.state h.2 k.2)
  where
    through : (x y z : TaskState) → Ends x y → Ends y z → Ends x z
    through x y z h k = ground arith

module _ {F : Type 0} where
  module _ (ex : Executor F) {ex' : Executor F} (p : ℕ) (sh : TaskShared)
      (object : ex.shared p ≡ some sh) where
    pub wake-Later : (q : ℕ) → wake ex q ≡ ok ex' → Later sh (ex'.shared p)
    unfolding wake
    wake-Later q e = ground (arith, Later-refl sh)

    pub abort_local-Later :
        (q : ℕ) {dropped : Option F}
        → abort_local ex q ≡ ok (dropped, ex')
        → Later sh (ex'.shared p)
    unfolding abort_local
    abort_local-Later q e = ground (arith, Later-refl sh)

    pub spawn-Later :
        (debug : Bool) {c : Option ℕ} (node : ℕ) (future : F) {id : ℕ}
        → Inv c ex
        → spawn debug ex node future ≡ ok (id, ex')
        → Later sh (ex'.shared p)
    unfolding spawn
    spawn-Later debug node future v e =
        ground (arith, Later-refl sh, v.bounded, v.fresh (suc ex.pre_next_global_id))

    pub after_poll-Later :
        (debug : Bool) (q : ℕ) (result : Poll F) {dropped : Option F}
        → after_poll debug ex q result ≡ ok (dropped, ex')
        → Later sh (ex'.shared p)
    unfolding after_poll
    after_poll-Later debug q result e = ground (arith, Later-refl sh)

    pub pop_one-Later :
        (debug : Bool) (k : ℕ) → pop_one debug ex k ≡ ok (removed ex') → Later sh (ex'.shared p)
    unfolding pop_one
    pop_one-Later debug k e = ground (arith, Later-refl sh)

    pub run-Later :
        (debug : Bool) (k q : ℕ) (future : F) (sh' : TaskShared)
        → pop_one debug ex k ≡ ok (run q future sh' ex')
        → Later sh ((store ex' q sh' waiting).shared p)
          × (ex.shared q ≡ some sh')
          × (sh'.state ≡ ready)
    unfolding pop_one
    run-Later debug k q future sh' e = ground (arith, Later-refl sh)

    pub levels-Later :
        (node : ℕ) (is_final was_running : Bool)
        → mark_stopped ex node is_final ≡ ok (was_running, ex')
        → Later sh (ex'.shared p)
    unfolding mark_stopped
    levels-Later node is_final was e = ground (arith, Later-refl sh)

    pub starts-Later :
        (node : ℕ) (was_running : Bool)
        → mark_started ex node ≡ ok (was_running, ex')
        → Later sh (ex'.shared p)
    unfolding mark_started
    starts-Later node was e = ground (arith, Later-refl sh)

    pub push_new_node-Later : (id : ℕ) → push_new_node ex ≡ ok (id, ex') → Later sh (ex'.shared p)
    unfolding push_new_node
    push_new_node-Later id e = ground (arith, Later-refl sh)
