-- ===== src/Executor/Stopping/Nesting.antt =====
-- Code of the user, however it nests, leaves no task alive on a node that was stopped.
use mathlib.Core.Bool.{or-false}
use refault.Prelude.{ℕ, ◌≡◌, Bool, ◌||◌, List, ◌∷◌, Option, ok, arith, contains}
use refault.Executor.State.{Executor}
use refault.Executor.Tasks.{abort_local}
use refault.Executor.Invariant.{Inv}
use refault.Executor.Invariant.Aborting.{abort_local-Inv}
use refault.Executor.Invariant.Nodes.{mark_stopped-Inv}
use refault.Executor.Machine.{
  Call, wakes, spawns, aborts, creates_node, marks_stopped, marks_started, stops_simulation,
  takes_id,
}
use refault.Executor.Machine.Safety.{Call-Inv}
use refault.Executor.Stopping.Actions.{
  IsBasic, Act, basic, stops_stopped, stops_running, Acts, rest, act_then, AbortAll, all_aborted,
  abort_next,
}
use refault.Executor.Stopping.Quiet.{
  Quiet, wake-Quiet, abort_local-Quiet, push_new_node-Quiet, spawn-Quiet, mark_started-Quiet,
  mark_stopped_again-Quiet, mark_stopped_first-Quiet,
}

module _ {F : Type 0} {debug : Bool} where
  pub Call-Quiet :
      {cur : Option ℕ} {ex ex' : Executor F} (exempt : ℕ → Bool) (c : Call debug ex ex')
      → IsBasic c
      → Inv cur ex
      → Quiet exempt ex
      → Quiet exempt ex'
  Call-Quiet {ex} exempt (wakes p e) b v q = wake-Quiet ex exempt q p e
  Call-Quiet {ex} exempt (spawns node future id e) b v q =
      spawn-Quiet ex exempt q debug node future v e
  Call-Quiet {ex} exempt (aborts id dropped e) b v q = abort_local-Quiet ex exempt q id e
  Call-Quiet {ex} exempt (creates_node id e) b v q = push_new_node-Quiet ex exempt q id e
  Call-Quiet exempt (marks_stopped node is_final was e) b v q = absurd b
  Call-Quiet {ex} exempt (marks_started node was e) b v q = mark_started-Quiet ex exempt q node e
  Call-Quiet exempt (stops_simulation e) b v q = rw e q
  Call-Quiet exempt (takes_id id after e eq) b v q = rw eq q

module _ {F : Type 0} where
  abort_local-over :
      {cur : Option ℕ} {ex ex' : Executor F} (exempt : ℕ → Bool) (id : ℕ) (ids : List ℕ)
      {dropped : Option F}
      → Inv cur ex
      → Quiet (λ i. exempt i || contains (id ∷ ids) i) ex
      → abort_local ex id ≡ ok (dropped, ex')
      → Quiet (λ i. exempt i || contains ids i) ex'
  unfolding abort_local
  abort_local-over exempt id ids v q e i = ground (arith, q i, v.slots id)

mutual
  pub Act-Quiet :
      {F : Type 0} {debug : Bool} {cur : Option ℕ} {ex ex' : Executor F} (exempt : ℕ → Bool)
      → Act F debug ex ex'
      → Inv cur ex × Quiet exempt ex
      → Inv cur ex' × Quiet exempt ex'
  Act-Quiet exempt (basic c b) (v, q) = (Call-Inv v c, Call-Quiet exempt c b v q)
  Act-Quiet exempt (stops_stopped {ex} node is_final e) (v, q) =
      (mark_stopped-Inv ex node is_final v e, mark_stopped_again-Quiet ex exempt q node is_final e)
  Act-Quiet exempt (stops_running {ex} node is_final ids e same aborted after) (v, q) =
      Acts-Quiet exempt after (
        AbortAll-Quiet exempt aborted (
          mark_stopped-Inv ex node is_final v e,
          λ i. rw (same i) (mark_stopped_first-Quiet ex exempt q node is_final v e i),
        ))

  pub Acts-Quiet :
      {F : Type 0} {debug : Bool} {cur : Option ℕ} {ex ex' : Executor F} (exempt : ℕ → Bool)
      → Acts F debug ex ex'
      → Inv cur ex × Quiet exempt ex
      → Inv cur ex' × Quiet exempt ex'
  Acts-Quiet exempt rest h = h
  Acts-Quiet exempt (act_then a more) h = Acts-Quiet exempt more (Act-Quiet exempt a h)

  AbortAll-Quiet :
      {F : Type 0} {debug : Bool} {cur : Option ℕ} {ids : List ℕ} {ex ex' : Executor F}
      (exempt : ℕ → Bool)
      → AbortAll F debug ids ex ex'
      → Inv cur ex × Quiet (λ i. exempt i || contains ids i) ex
      → Inv cur ex' × Quiet exempt ex'
  AbortAll-Quiet exempt all_aborted (v, q) = (v, λ i. rw or-false at (q i))
  AbortAll-Quiet exempt (abort_next {id} {ids} dropped e acts more) (v, q) =
      AbortAll-Quiet exempt more (
        Acts-Quiet (λ i. exempt i || contains ids i) acts
          (abort_local-Inv id v e, abort_local-over exempt id ids v q e))
