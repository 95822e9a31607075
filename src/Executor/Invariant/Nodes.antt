-- ===== src/Executor/Invariant/Nodes.antt =====
-- The operations on nodes keep the invariant.
use refault.Prelude.{
  ℕ, ◌≡◌, Bool, Option, some, none, ok, [], ◌∷◌, arith, length-set, length-append, get_elem?, set,
  Option-cases, inl, inr, ◌⊎◌,
}
use refault.Executor.State.{
  Executor, NodeData, NodeRunLevel, node_tasks-set, node_tasks-push, running, stopped,
  final_stopped,
}
use refault.Executor.Nodes.{push_new_node, mark_stopped, mark_started}
use refault.Executor.Invariant.{Inv}

module _ {F : Type 0} where
  pub push_new_node-Inv :
      {c : Option ℕ} (ex : Executor F) {ex' : Executor F} {id : ℕ}
      → Inv c ex
      → push_new_node ex ≡ ok (id, ex')
      → Inv c ex'
  unfolding push_new_node
  push_new_node-Inv ex v e = record {
    slots = λ i. ground (arith, v.slots i);
    listed = λ i n. ground (arith, v.listed i n, node_tasks-push ex.nodes n running);
    placed = λ i. ground (
      arith,
      v.placed i,
      length-append ex.nodes (record { run_level = running; tasks = [] } ∷ []),
    );
    fresh = λ i h. ground (arith, v.fresh i);
    bounded = ground (arith, v.bounded);
  }

  module _ (ex : Executor F) (node : ℕ) (d : NodeData) (at : get_elem? ex.nodes node ≡ some d) where
    -- The executor with another run level of a node.
    abbrev pub relevel : NodeRunLevel → Executor F
    relevel level = record ex { nodes = set ex.nodes node (record d { run_level = level }) }

    relevel-Inv : {c : Option ℕ} (level : NodeRunLevel) → Inv c ex → Inv c (relevel level)
    relevel-Inv level v =
        let d' : NodeData = record d { run_level = level } in
        record {
          slots = v.slots;
          listed = λ i n.
              ground (arith, v.listed i n, v.listed i node, node_tasks-set ex.nodes node n d d' at);
          placed = λ i. ground (arith, v.placed i, length-set ex.nodes node d');
          fresh = v.fresh;
          bounded = v.bounded;
        }

    -- What the first part of `stop_node` may do to an executor.
    pub mark_stopped-cases :
        (is_final : Bool) {was_running : Bool} {ex' : Executor F}
        → mark_stopped ex node is_final ≡ ok (was_running, ex')
        → (ex' ≡ ex) ⊎ (ex' ≡ relevel stopped) ⊎ (ex' ≡ relevel final_stopped)
    unfolding mark_stopped
    mark_stopped-cases is_final e = ground arith

    pub mark_started-cases :
        {was_running : Bool} {ex' : Executor F}
        → mark_started ex node ≡ ok (was_running, ex')
        → (ex' ≡ ex) ⊎ (ex' ≡ relevel running)
    unfolding mark_started
    mark_started-cases e = ground arith

  pub no_node :
      (ex : Executor F) (node : ℕ) (is_final : Bool) {was_running : Bool} {ex' : Executor F}
      → get_elem? ex.nodes node ≡ none
      → (mark_stopped ex node is_final ≡ ok (was_running, ex'))
        ⊎ (mark_started ex node ≡ ok (was_running, ex'))
      → ⊥
  unfolding mark_stopped mark_started
  no_node ex node is_final absent e = ground arith

  pub mark_stopped-Inv :
      {c : Option ℕ} (ex : Executor F) (node : ℕ) (is_final : Bool) {was_running : Bool}
      {ex' : Executor F}
      → Inv c ex
      → mark_stopped ex node is_final ≡ ok (was_running, ex')
      → Inv c ex'
  mark_stopped-Inv ex node is_final v e = elim (Option-cases (get_elem? ex.nodes node)) [
    | inl absent ↦ absurd (no_node ex node is_final absent (inl e))
    | inr (d, at) ↦ elim (mark_stopped-cases ex node d at is_final e) [
      | inl same ↦ rw same v
      | inr (inl eq) ↦ rw eq (relevel-Inv ex node d at stopped v)
      | inr (inr eq) ↦ rw eq (relevel-Inv ex node d at final_stopped v)
    ]
  ]

  pub mark_started-Inv :
      {c : Option ℕ} (ex : Executor F) (node : ℕ) {was_running : Bool} {ex' : Executor F}
      → Inv c ex
      → mark_started ex node ≡ ok (was_running, ex')
      → Inv c ex'
  mark_started-Inv ex node v e = elim (Option-cases (get_elem? ex.nodes node)) [
    | inl absent ↦ absurd (no_node ex node Bool.true absent (inr e))
    | inr (d, at) ↦ elim (mark_started-cases ex node d at e) [
      | inl same ↦ rw same v
      | inr eq ↦ rw eq (relevel-Inv ex node d at running v)
    ]
  ]
