-- ===== src/Executor/Invariant/Spawning.antt =====
-- `spawn` keeps the invariant.
use refault.Prelude.{
  ℕ, suc, ◌<◌, ◌≡◌, Bool, [], ◌∷◌, ◌++◌, Option, ok, some, none, arith, count-push, contains-insert,
  length-set, get_elem?, get_elem?-lt, insert, update, set, Option-cases, inl, inr, length,
  contains, count,
}
use refault.Ids.{new_id, u64_mod}
use refault.Executor.State.{Executor, NodeData, node_tasks-set, ready, waiting, node_tasks}
use refault.Executor.Tasks.{spawn}
use refault.Executor.Invariant.{Inv, Slot, is_running, Listed, Placed}

pub new_id-next :
    (debug : Bool) (c : ℕ) {id after : ℕ}
    → c < u64_mod
    → new_id debug c ≡ ok (id, after)
    → (id ≡ suc c) × (after ≡ suc c) × (suc c < u64_mod)
unfolding new_id
new_id-next debug c h e = ground arith

module _ {F : Type 0} where
  -- The executor after a new task `k` was put on a node and woken.
  abbrev pub spawned : Executor F → ℕ → NodeData → F → ℕ → Executor F
  spawned ex node d future k = record ex {
    ready_queue = ex.ready_queue ++ k ∷ [];
    tasks = update ex.tasks k (some (record { shared = k; task = some future }));
    nodes = set ex.nodes node (record d { tasks = insert k d.tasks });
    pre_next_global_id = k;
    shared =
        update (update ex.shared k (some (record { state = waiting; id = k; node = node }))) k
          (some (record { state = ready; id = k; node = node }));
  }

  module _ (ex : Executor F) (node : ℕ) (d : NodeData) (future : F) where
    pub spawn-eq-spawned :
        (debug : Bool) {id : ℕ} {ex' : Executor F}
        → get_elem? ex.nodes node ≡ some d
        → ex.pre_next_global_id < u64_mod
        → spawn debug ex node future ≡ ok (id, ex')
        → (id ≡ suc ex.pre_next_global_id)
          × (suc ex.pre_next_global_id < u64_mod)
          × (ex' ≡ spawned ex node d future (suc ex.pre_next_global_id))
    unfolding spawn
    spawn-eq-spawned debug at h e = ground arith

    module _ {c : Option ℕ} (v : Inv c ex) (at : get_elem? ex.nodes node ≡ some d) (k : ℕ)
        (new : ex.shared k ≡ none) where
      slot :
          (i : ℕ)
          → let t = spawned ex node d future k in
            Slot i (is_running c i) (t.tasks i) (t.shared i) (count i t.ready_queue)
      slot i = ground (arith, v.slots i, v.slots k, count-push i k ex.ready_queue)

      list :
          (i n : ℕ)
          → let t = spawned ex node d future k in
            Listed (contains (node_tasks t.nodes n) i) n (t.tasks i) (t.shared i)
      list i n = ground (
        arith,
        v.slots k,
        v.listed i n,
        v.listed i node,
        node_tasks-set ex.nodes node n d (record d { tasks = insert k d.tasks }),
        contains-insert k i d.tasks,
      )

      place :
          (i : ℕ)
          → let t = spawned ex node d future k in Placed (length t.nodes) (t.tasks i) (t.shared i)
      place i = ground (
        arith,
        v.slots k,
        v.placed i,
        length-set ex.nodes node (record d { tasks = insert k d.tasks }),
        get_elem?-lt ex.nodes node at,
      )

      spawned-Inv : k < u64_mod → ex.pre_next_global_id < k → Inv c (spawned ex node d future k)
      spawned-Inv h g = record {
        slots = slot;
        listed = list;
        placed = place;
        fresh = λ i j. ground (arith, v.fresh i);
        bounded = h;
      }

  pub spawn-no_node :
      (debug : Bool) (ex : Executor F) (node : ℕ) (future : F) {id : ℕ} {ex' : Executor F}
      → get_elem? ex.nodes node ≡ none
      → spawn debug ex node future ≡ ok (id, ex')
      → ⊥
  unfolding spawn
  spawn-no_node debug ex node future absent e = ground arith

  -- `spawn` keeps the invariant, whichever task is being polled.
  pub spawn-Inv :
      (debug : Bool) {c : Option ℕ} (ex : Executor F) (node : ℕ) (future : F) {id : ℕ}
      {ex' : Executor F}
      → Inv c ex
      → spawn debug ex node future ≡ ok (id, ex')
      → Inv c ex'
  spawn-Inv debug {c} ex node future v e = elim (Option-cases (get_elem? ex.nodes node)) [
    | inl absent ↦ absurd (spawn-no_node debug ex node future absent e)
    | inr (d, at) ↦
        let (_, below, eq) = spawn-eq-spawned ex node d future debug at v.bounded e in
        rw eq (spawned-Inv ex node d future v at _ (v.fresh _ (omega arith)) below (omega arith))
  ]
