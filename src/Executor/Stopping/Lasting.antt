-- ===== src/Executor/Stopping/Lasting.antt =====
-- The end of the simulation is final: no node starts again, and none is added.
use refault.Prelude.{
  ℕ, suc, ◌≡◌, refl, ap, ◌⊎◌, inl, inr, Bool, true, false, List, [], Option, some, none, ok, arith,
  get_elem?, set, get_elem?-set, get_elem?-push, get_elem?-length, ◌==◌, if◌then◌else◌, length,
  length-set, insert, ◌∙◌, Option-cases,
}
use refault.Executor.State.{Executor, NodeData, NodeRunLevel, running, stopped, final_stopped}
use refault.Executor.Tasks.{wake, spawn, abort_local}
use refault.Executor.Nodes.{push_new_node, mark_stopped, mark_started}
use refault.Executor.Invariant.{Inv}
use refault.Executor.Invariant.Spawning.{spawn-eq-spawned, spawn-no_node}
use refault.Executor.Invariant.Aborting.{abort_local-Inv}
use refault.Executor.Invariant.Nodes.{relevel, no_node, mark_stopped-Inv}
use refault.Executor.Machine.Safety.{Call-Inv}
use refault.Executor.Machine.{
  Call, wakes, spawns, aborts, creates_node, marks_stopped, marks_started, stops_simulation,
  takes_id,
}
use refault.Executor.Stopping.Actions.{
  Act, basic, stops_stopped, stops_running, Acts, rest, act_then, AbortAll, all_aborted, abort_next,
}

abbrev pub is_final_level : NodeRunLevel → Bool
is_final_level final_stopped = true
is_final_level _ = false

-- Whether there is a node with an index, and it is stopped for good.
abbrev pub is_final : List NodeData → ℕ → Bool
is_final nodes n = elim (get_elem? nodes n) [ none ↦ false | some d ↦ is_final_level d.run_level ]

pub is_final-set :
    (nodes : List NodeData) (k n : ℕ) (d d' : NodeData)
    → get_elem? nodes k ≡ some d
    → is_final (set nodes k d') n
      ≡ (if k == n then is_final_level d'.run_level else is_final nodes n)
is_final-set nodes k n d d' h = ground (arith, get_elem?-set nodes k n d' h)

-- What later states keep: a node that is stopped for good, and once the simulation is stopping,
-- that and the number of nodes.
pub record Lasting {F : Type 0} (ex ex' : Executor F) : Type 0 where
  pub flag : ex.final_stopped ≡ true → ex'.final_stopped ≡ true
  pub nodes : ex.final_stopped ≡ true → length ex'.nodes ≡ length ex.nodes
  pub final : (n : ℕ) → is_final ex.nodes n ≡ true → is_final ex'.nodes n ≡ true

module _ {F : Type 0} where
  pub Lasting-refl : (ex : Executor F) → Lasting ex ex
  Lasting-refl ex = record { flag = λ h. h; nodes = λ h. refl; final = λ n h. h }

  pub Lasting-trans : {a b c : Executor F} → Lasting a b → Lasting b c → Lasting a c
  Lasting-trans p q = record {
    flag = λ h. q.flag (p.flag h);
    nodes = λ h. q.nodes (p.flag h) ∙ p.nodes h;
    final = λ n h. q.final n (p.final n h);
  }

  -- An operation that leaves the nodes and the flag alone.
  Lasting-of_eq :
      (ex ex' : Executor F)
      → ex'.final_stopped ≡ ex.final_stopped
      → ex'.nodes ≡ ex.nodes
      → Lasting ex ex'
  Lasting-of_eq ex ex' f n = record { flag = λ h. f ∙ h; nodes = λ h. rw n; final = λ k h. rw n h }

  -- An operation that replaces the data of a node, and does not start one that is stopped for good.
  Lasting-set :
      (ex ex' : Executor F) (node : ℕ) (d d' : NodeData)
      → get_elem? ex.nodes node ≡ some d
      → (is_final_level d.run_level ≡ true → is_final_level d'.run_level ≡ true)
      → ex'.final_stopped ≡ ex.final_stopped
      → ex'.nodes ≡ set ex.nodes node d'
      → Lasting ex ex'
  Lasting-set ex ex' node d d' at keeps f n = record {
    flag = λ h. f ∙ h;
    nodes = λ h. rw n (length-set ex.nodes node d');
    final = λ k h. rw n (ground (arith, keeps, is_final-set ex.nodes node k d d' at));
  }

module _ {F : Type 0} (ex : Executor F) {ex' : Executor F} where
  wake-Lasting : (p : ℕ) → wake ex p ≡ ok ex' → Lasting ex ex'
  unfolding wake
  wake-Lasting p e = Lasting-of_eq ex ex' (ground arith) (ground arith)

  abort_local-Lasting :
      (id : ℕ) {dropped : Option F} → abort_local ex id ≡ ok (dropped, ex') → Lasting ex ex'
  unfolding abort_local
  abort_local-Lasting id e = Lasting-of_eq ex ex' (ground arith) (ground arith)

  push_new_node-Lasting : (id : ℕ) → push_new_node ex ≡ ok (id, ex') → Lasting ex ex'
  unfolding push_new_node
  push_new_node-Lasting id e = record {
    flag = λ h. ground arith;
    nodes = λ h. ground arith;
    final = λ n h. ground (
      arith,
      get_elem?-push ex.nodes n (record { run_level = running; tasks = [] }),
      get_elem?-length ex.nodes,
    );
  }

  spawn-Lasting :
      (debug : Bool) {c : Option ℕ} (node : ℕ) (future : F) {id : ℕ}
      → Inv c ex
      → spawn debug ex node future ≡ ok (id, ex')
      → Lasting ex ex'
  spawn-Lasting debug node future v e = elim (Option-cases (get_elem? ex.nodes node)) [
    | inl absent ↦ absurd (spawn-no_node debug ex node future absent e)
    | inr (d, at) ↦
        let (_, _, eq) = spawn-eq-spawned ex node d future debug at v.bounded e in
        Lasting-set ex ex' node d (record d { tasks = insert (suc ex.pre_next_global_id) d.tasks })
          at (λ h. h) (ap (λ (x : Executor F). x.final_stopped) eq)
          (ap (λ (x : Executor F). x.nodes) eq)
  ]

  module _ (node : ℕ) (d : NodeData) (at : get_elem? ex.nodes node ≡ some d) where
    mark_stopped-levels :
        (is_final was : Bool)
        → mark_stopped ex node is_final ≡ ok (was, ex')
        → (ex' ≡ ex)
          ⊎ ((ex' ≡ relevel ex node d at stopped) × (is_final_level d.run_level ≡ false))
          ⊎ (ex' ≡ relevel ex node d at final_stopped)
    unfolding mark_stopped
    mark_stopped-levels is_final was e = ground arith

    mark_started-levels :
        (was : Bool)
        → mark_started ex node ≡ ok (was, ex')
        → (ex' ≡ ex) ⊎ ((ex' ≡ relevel ex node d at running) × (is_final_level d.run_level ≡ false))
    unfolding mark_started
    mark_started-levels was e = ground arith

    relevel-Lasting :
        (level : NodeRunLevel)
        → (is_final_level d.run_level ≡ false) ⊎ (is_final_level level ≡ true)
        → ex' ≡ relevel ex node d at level
        → Lasting ex ex'
    relevel-Lasting level harmless eq =
        Lasting-set ex ex' node d (record d { run_level = level }) at (λ h. ground arith)
          (ap (λ (x : Executor F). x.final_stopped) eq) (ap (λ (x : Executor F). x.nodes) eq)

  pub mark_stopped-Lasting :
      (node : ℕ) (is_final was : Bool)
      → mark_stopped ex node is_final ≡ ok (was, ex')
      → Lasting ex ex'
  mark_stopped-Lasting node is_final was e = elim (Option-cases (get_elem? ex.nodes node)) [
    | inl absent ↦ absurd (no_node ex node is_final absent (inl e))
    | inr (d, at) ↦ elim (mark_stopped-levels node d at is_final was e) [
      | inl same ↦ rw same (Lasting-refl ex)
      | inr (inl (eq, off)) ↦ relevel-Lasting node d at stopped (inl off) eq
      | inr (inr eq) ↦ relevel-Lasting node d at final_stopped (inr refl) eq
    ]
  ]

  mark_started-Lasting :
      (node : ℕ) (was : Bool) → mark_started ex node ≡ ok (was, ex') → Lasting ex ex'
  mark_started-Lasting node was e = elim (Option-cases (get_elem? ex.nodes node)) [
    | inl absent ↦ absurd (no_node ex node true absent (inr e))
    | inr (d, at) ↦ elim (mark_started-levels node d at was e) [
      | inl same ↦ rw same (Lasting-refl ex)
      | inr (eq, off) ↦ relevel-Lasting node d at running (inl off) eq
    ]
  ]

Call-Lasting :
    {F : Type 0} {debug : Bool} {cur : Option ℕ} {ex ex' : Executor F}
    → Inv cur ex
    → Call debug ex ex'
    → Lasting ex ex'
Call-Lasting {ex} v (wakes p e) = wake-Lasting ex p e
Call-Lasting {ex} v (spawns node future id e) = spawn-Lasting ex _ node future v e
Call-Lasting {ex} v (aborts id dropped e) = abort_local-Lasting ex id e
Call-Lasting {ex} v (creates_node id e) = push_new_node-Lasting ex id e
Call-Lasting {ex} v (marks_stopped node is_final was e) =
    mark_stopped-Lasting ex node is_final was e
Call-Lasting {ex} v (marks_started node was e) = mark_started-Lasting ex node was e
Call-Lasting v (stops_simulation e) =
    rw e (record { flag = λ h. refl; nodes = λ h. refl; final = λ n h. h })
Call-Lasting {ex} v (takes_id id after e eq) = rw eq (Lasting-of_eq ex _ refl refl)

mutual
  pub Act-Lasting :
      {F : Type 0} {debug : Bool} {cur : Option ℕ} {ex ex' : Executor F}
      → Act F debug ex ex'
      → Inv cur ex
      → Inv cur ex' × Lasting ex ex'
  Act-Lasting (basic c b) v = (Call-Inv v c, Call-Lasting v c)
  Act-Lasting (stops_stopped {ex} node is_final e) v =
      (mark_stopped-Inv ex node is_final v e, mark_stopped-Lasting ex node is_final false e)
  Act-Lasting (stops_running {ex} node is_final ids e same aborted after) v =
      let (v2, l2) = AbortAll-Lasting aborted (mark_stopped-Inv ex node is_final v e) in
      let (v3, l3) = Acts-Lasting after v2 in
      (v3, Lasting-trans (mark_stopped-Lasting ex node is_final true e) (Lasting-trans l2 l3))

  pub Acts-Lasting :
      {F : Type 0} {debug : Bool} {cur : Option ℕ} {ex ex' : Executor F}
      → Acts F debug ex ex'
      → Inv cur ex
      → Inv cur ex' × Lasting ex ex'
  Acts-Lasting (rest {ex}) v = (v, Lasting-refl ex)
  Acts-Lasting (act_then a more) v =
      let (v1, l1) = Act-Lasting a v in
      let (v2, l2) = Acts-Lasting more v1 in (v2, Lasting-trans l1 l2)

  pub AbortAll-Lasting :
      {F : Type 0} {debug : Bool} {cur : Option ℕ} {ids : List ℕ} {ex ex' : Executor F}
      → AbortAll F debug ids ex ex'
      → Inv cur ex
      → Inv cur ex' × Lasting ex ex'
  AbortAll-Lasting (all_aborted {ex}) v = (v, Lasting-refl ex)
  AbortAll-Lasting (abort_next {ex} {id} dropped e acts more) v =
      let (v1, l1) = Acts-Lasting acts (abort_local-Inv id v e) in
      let (v2, l2) = AbortAll-Lasting more v1 in
      (v2, Lasting-trans (abort_local-Lasting ex id e) (Lasting-trans l1 l2))

module _ {F : Type 0} (ex : Executor F) {ex' : Executor F} (node : ℕ) where
  marked-final :
      (d : NodeData) {was : Bool}
      → get_elem? ex.nodes node ≡ some d
      → mark_stopped ex node true ≡ ok (was, ex')
      → is_final ex'.nodes node ≡ true
  unfolding mark_stopped
  marked-final d at e =
      ground (arith, is_final-set ex.nodes node node d (record d { run_level = final_stopped }) at)

  pub mark_stopped-final :
      {was : Bool} → mark_stopped ex node true ≡ ok (was, ex') → is_final ex'.nodes node ≡ true
  mark_stopped-final e = elim (Option-cases (get_elem? ex.nodes node)) [
    | inl absent ↦ absurd (no_node ex node true absent (inl e))
    | inr (d, at) ↦ marked-final d at e
  ]
