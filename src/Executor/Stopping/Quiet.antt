-- ===== src/Executor/Stopping/Quiet.antt =====
-- Once a node was stopped, whatever else its tasks' destructors and the simulators do, its tasks are
-- over.
use refault.Prelude.{
  ℕ, ◌≡◌, refl, ==_refl, ◌⊎◌, inl, inr, Bool, true, false, ◌||◌, List, [], ◌∷◌, ◌++◌, Option, some,
  none, Option-cases, ok, arith, contains, get_elem?, set, get_elem?-set, get_elem?-push, ◌==◌,
  if◌then◌else◌, insert,
}
use refault.Executor.State.{
  Executor, NodeData, NodeRunLevel, running, stopped, final_stopped, TaskShared, node_tasks,
  node_tasks-set,
}
use refault.Executor.Tasks.{wake, spawn, abort_local}
use refault.Executor.Nodes.{push_new_node, mark_stopped, mark_started}
use refault.Executor.Invariant.{Inv}
use refault.Executor.Invariant.Spawning.{spawned, spawn-eq-spawned, spawn-no_node}
use refault.Executor.Invariant.Nodes.{relevel, no_node, mark_started-cases}
use refault.Executor.Machine.Stability.{IsOver}

abbrev pub is_running_level : NodeRunLevel → Bool
is_running_level running = true
is_running_level _ = false

-- Whether there is a node with an index, and it runs.
abbrev pub is_on : List NodeData → ℕ → Bool
is_on nodes n = elim (get_elem? nodes n) [ none ↦ false | some d ↦ is_running_level d.run_level ]

pub is_on-set :
    (nodes : List NodeData) (k n : ℕ) (d d' : NodeData)
    → get_elem? nodes k ≡ some d
    → is_on (set nodes k d') n ≡ (if k == n then is_running_level d'.run_level else is_on nodes n)
is_on-set nodes k n d d' h = ground (arith, get_elem?-set nodes k n d' h)

-- A task runs on a running node, is over, or is exempt: it is still to be aborted.
abbrev pub QuietSlot : Bool → List NodeData → Option TaskShared → Type 0
QuietSlot exempt nodes none = Unit
QuietSlot exempt nodes (some sh) = (is_on nodes sh.node ≡ true) ⊎ IsOver sh.state ⊎ (exempt ≡ true)

abbrev pub Quiet : {F : Type 0} → (ℕ → Bool) → Executor F → Type 0
Quiet exempt ex = (i : ℕ) → QuietSlot (exempt i) ex.nodes (ex.shared i)

is_on-push :
    (nodes : List NodeData) (n : ℕ)
    → is_on nodes n ≡ true
    → is_on (nodes ++ record { run_level = running; tasks = [] } ∷ []) n ≡ true
is_on-push nodes n h =
    ground (arith, get_elem?-push nodes n (record { run_level = running; tasks = [] }))

-- More running nodes do no harm.
QuietSlot-mono :
    (exempt : Bool) (nodes nodes' : List NodeData) (o : Option TaskShared)
    → ((n : ℕ) → is_on nodes n ≡ true → is_on nodes' n ≡ true)
    → QuietSlot exempt nodes o
    → QuietSlot exempt nodes' o
QuietSlot-mono exempt nodes nodes' none h q = tt
QuietSlot-mono exempt nodes nodes' (some sh) h q = ground (arith, h sh.node)

module _ {F : Type 0} (ex : Executor F) (exempt : ℕ → Bool) (q : Quiet exempt ex) where
  spawned-Quiet :
      (node : ℕ) (d : NodeData) (future : F) (k : ℕ)
      → get_elem? ex.nodes node ≡ some d
      → d.run_level ≡ running
      → Quiet exempt (spawned ex node d future k)
  spawned-Quiet node d future k at on i =
      let d' : NodeData = record d { tasks = insert k d.tasks } in
      let more =
        QuietSlot-mono (exempt i) ex.nodes (set ex.nodes node d') (ex.shared i)
          (λ n h. ground (arith, is_on-set ex.nodes node n d d' at)) (q i) in
      ground (arith, is_on-set ex.nodes node node d d' at)

  -- A new run level, unless it stops a running node.
  relevel-Quiet :
      (node : ℕ) (d : NodeData) (at : get_elem? ex.nodes node ≡ some d) (level : NodeRunLevel)
      → (level ≡ running) ⊎ (is_running_level d.run_level ≡ false)
      → Quiet exempt (relevel ex node d at level)
  relevel-Quiet node d at level harmless i =
      let d' : NodeData = record d { run_level = level } in
      QuietSlot-mono (exempt i) ex.nodes (set ex.nodes node d') (ex.shared i)
        (λ n h. ground (arith, is_on-set ex.nodes node n d d' at)) (q i)

  -- A run level that stops a node: the tasks that it lists are exempt from then on.
  relevel_off-Quiet :
      {c : Option ℕ} (node : ℕ) (d : NodeData) (at : get_elem? ex.nodes node ≡ some d)
      (level : NodeRunLevel)
      → Inv c ex
      → Quiet (λ i. exempt i || contains d.tasks i) (relevel ex node d at level)
  relevel_off-Quiet node d at level v i = elim (Option-cases (ex.shared i)) [
    | inl none_there ↦ rw none_there tt
    | inr (sh, there) ↦ ground (arith, listed_task sh there)
  ]
    where
      d' : NodeData
      d' = record d { run_level = level }

      listed_task :
          (sh : TaskShared)
          → ex.shared i ≡ some sh
          → QuietSlot (exempt i || contains d.tasks i) (set ex.nodes node d') (some sh)
      listed_task sh there =
          ground (arith, q i, v.slots i, v.listed i node, is_on-set ex.nodes node sh.node d d' at)

module _ {F : Type 0} (ex : Executor F) {ex' : Executor F} (exempt : ℕ → Bool)
    (q : Quiet exempt ex) where
  pub wake-Quiet : (p : ℕ) → wake ex p ≡ ok ex' → Quiet exempt ex'
  unfolding wake
  wake-Quiet p e i = ground (arith, q i, q p)

  pub abort_local-Quiet :
      (id : ℕ) {dropped : Option F} → abort_local ex id ≡ ok (dropped, ex') → Quiet exempt ex'
  unfolding abort_local
  abort_local-Quiet id e i = ground (arith, q i)

  pub push_new_node-Quiet : (id : ℕ) → push_new_node ex ≡ ok (id, ex') → Quiet exempt ex'
  unfolding push_new_node
  push_new_node-Quiet id e i =
      let more =
        QuietSlot-mono (exempt i) ex.nodes
          (ex.nodes ++ record { run_level = running; tasks = [] } ∷ []) (ex.shared i)
          (λ n. is_on-push ex.nodes n) (q i) in
      ground arith

  spawn-running :
      (debug : Bool) (node : ℕ) (d : NodeData) (future : F) {id : ℕ}
      → get_elem? ex.nodes node ≡ some d
      → spawn debug ex node future ≡ ok (id, ex')
      → d.run_level ≡ running
  unfolding spawn
  spawn-running debug node d future at e = ground arith

  pub spawn-Quiet :
      (debug : Bool) {c : Option ℕ} (node : ℕ) (future : F) {id : ℕ}
      → Inv c ex
      → spawn debug ex node future ≡ ok (id, ex')
      → Quiet exempt ex'
  spawn-Quiet debug node future v e = elim (Option-cases (get_elem? ex.nodes node)) [
    | inl absent ↦ absurd (spawn-no_node debug ex node future absent e)
    | inr (d, at) ↦
        let (_, _, eq) = spawn-eq-spawned ex node d future debug at v.bounded e in
        rw eq
          (spawned-Quiet ex exempt q node d future _ at (spawn-running debug node d future at e))
  ]

  pub mark_started-Quiet :
      (node : ℕ) {was : Bool} → mark_started ex node ≡ ok (was, ex') → Quiet exempt ex'
  mark_started-Quiet node e = elim (Option-cases (get_elem? ex.nodes node)) [
    | inl absent ↦ absurd (no_node ex node true absent (inr e))
    | inr (d, at) ↦ elim (mark_started-cases ex node d at e) [
      | inl same ↦ rw same q
      | inr eq ↦ rw eq (relevel-Quiet ex exempt q node d at running (inl refl))
    ]
  ]

  pub mark_stopped_again-cases :
      (node : ℕ) (d : NodeData) (at : get_elem? ex.nodes node ≡ some d) (is_final : Bool)
      → mark_stopped ex node is_final ≡ ok (false, ex')
      → (is_running_level d.run_level ≡ false)
        × ((ex' ≡ ex) ⊎ (ex' ≡ relevel ex node d at final_stopped))
  unfolding mark_stopped
  mark_stopped_again-cases node d at is_final e = ground arith

  -- Stopping a node that does not run leaves its tasks as they are.
  pub mark_stopped_again-Quiet :
      (node : ℕ) (is_final : Bool)
      → mark_stopped ex node is_final ≡ ok (false, ex')
      → Quiet exempt ex'
  mark_stopped_again-Quiet node is_final e = elim (Option-cases (get_elem? ex.nodes node)) [
    | inl absent ↦ absurd (no_node ex node is_final absent (inl e))
    | inr (d, at) ↦
        let (off, cases) = mark_stopped_again-cases node d at is_final e in
        elim cases [
          | inl same ↦ rw same q
          | inr eq ↦ rw eq (relevel-Quiet ex exempt q node d at final_stopped (inr off))
        ]
  ]

  pub mark_stopped_first-cases :
      (node : ℕ) (d : NodeData) (at : get_elem? ex.nodes node ≡ some d) (is_final : Bool)
      → mark_stopped ex node is_final ≡ ok (true, ex')
      → (ex' ≡ relevel ex node d at (if is_final then final_stopped else stopped))
  unfolding mark_stopped
  mark_stopped_first-cases node d at is_final e = ground arith

  -- Stopping a running node exempts the tasks that it lists, until they are aborted.
  pub mark_stopped_first-Quiet :
      {c : Option ℕ} (node : ℕ) (is_final : Bool)
      → Inv c ex
      → mark_stopped ex node is_final ≡ ok (true, ex')
      → Quiet (λ i. exempt i || contains (node_tasks ex'.nodes node) i) ex'
  mark_stopped_first-Quiet node is_final v e = elim (Option-cases (get_elem? ex.nodes node)) [
    | inl absent ↦ absurd (no_node ex node is_final absent (inl e))
    | inr (d, at) ↦
        let level : NodeRunLevel = if is_final then final_stopped else stopped in
        rw (mark_stopped_first-cases node d at is_final e) (
          rw (node_tasks-set ex.nodes node node d (record d { run_level = level }) at, ==_refl node)
            (relevel_off-Quiet ex exempt q node d at level v))
  ]
