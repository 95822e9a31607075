-- ===== src/Executor/Turns/Removing.antt =====
-- The removal of a task's entry, seen from the nodes: no run level changes.
use refault.Prelude.{
  ℕ, ◌≡◌, refl, sym, inl, inr, Bool, false, List, erase, Option, Option-cases, some, none, arith,
  ok, ◌>>=◌, ◌∙◌, parts_of_ok, get_elem?,
}
use refault.Executor.State.{
  Executor, TaskState, complete_ready, complete, aborted_ready, aborted, TaskShared, TaskEntry,
  NodeData, deref, store,
}
use refault.Executor.Tasks.{remove_task_entry}
use refault.Executor.Polling.{removed, pop_one}
use refault.Executor.Machine.Stability.{IsOver}
use refault.Executor.Stopping.Quiet.{Quiet, QuietSlot, is_on, is_on-set}

module _ {F : Type 0} (ex : Executor F) {ex' : Executor F} where
  removed_from :
      (debug : Bool) (id n : ℕ) (en : TaskEntry F) (sh : TaskShared)
      → ex.tasks id ≡ some en
      → ex.shared en.shared ≡ some sh
      → remove_task_entry debug ex id ≡ ok ex'
      → is_on ex'.nodes n ≡ is_on ex.nodes n
  unfolding remove_task_entry
  removed_from debug id n en sh entry object e = elim (Option-cases (get_elem? ex.nodes sh.node)) [
    | inl absent ↦ ground arith
    | inr (d, at) ↦
        ground (arith, is_on-set ex.nodes sh.node n d (record d { tasks = erase id d.tasks }) at)
  ]

  no_entry :
      (debug : Bool) (id : ℕ) → ex.tasks id ≡ none → remove_task_entry debug ex id ≡ ok ex' → ⊥
  unfolding remove_task_entry
  no_entry debug id absent e = ground arith

  no_object :
      (debug : Bool) (id : ℕ) (en : TaskEntry F)
      → ex.tasks id ≡ some en
      → ex.shared en.shared ≡ none
      → remove_task_entry debug ex id ≡ ok ex'
      → ⊥
  unfolding remove_task_entry
  no_object debug id en entry absent e = ground arith

  -- Removing an entry changes no run level.
  remove_task_entry-levels :
      (debug : Bool) (id : ℕ)
      → remove_task_entry debug ex id ≡ ok ex'
      → (n : ℕ) → is_on ex'.nodes n ≡ is_on ex.nodes n
  remove_task_entry-levels debug id e n = elim (Option-cases (ex.tasks id)) [
    | inl absent ↦ absurd (no_entry debug id absent e)
    | inr (en, entry) ↦ elim (Option-cases (ex.shared en.shared)) [
      | inl absent ↦ absurd (no_object debug id en entry absent e)
      | inr (sh, object) ↦ removed_from debug id n en sh entry object e
    ]
  ]

  remove_task_entry-shared :
      (debug : Bool) (id : ℕ) → remove_task_entry debug ex id ≡ ok ex' → ex'.shared ≡ ex.shared
  unfolding remove_task_entry
  remove_task_entry-shared debug id e = ground arith

same_levels :
    (nodes nodes' : List NodeData) (o : Option TaskShared)
    → ((n : ℕ) → is_on nodes' n ≡ is_on nodes n)
    → QuietSlot false nodes o
    → QuietSlot false nodes' o
same_levels nodes nodes' none same q = tt
same_levels nodes nodes' (some sh) same q = ground (arith, same sh.node)

module _ {F : Type 0} (ex : Executor F) (q : Quiet (λ _. false) ex) where
  -- An object whose task is over, and the rest as before.
  store-Quiet :
      (p : ℕ) (sh : TaskShared) (st : TaskState)
      → ex.shared p ≡ some sh
      → IsOver st
      → Quiet (λ _. false) (store ex p sh st)
  store-Quiet p sh st object over i = ground (arith, q i)

  remove_task_entry-Quiet :
      (debug : Bool) (id : ℕ) {ex' : Executor F}
      → remove_task_entry debug ex id ≡ ok ex'
      → Quiet (λ _. false) ex'
  remove_task_entry-Quiet debug id {ex'} e i =
      rw (remove_task_entry-shared ex debug id e) (
        same_levels ex.nodes ex'.nodes (ex.shared i) (remove_task_entry-levels ex debug id e) (q i))

module _ {F : Type 0} (debug : Bool) (ex : Executor F) (ex' : Executor F) where
  -- What is left of `ex` when the entry of a task that is over was removed.
  abbrev pub Removal : Type 0
  Removal =
      (p : ℕ) × (sh : TaskShared) × (st : TaskState) × (ex.shared p ≡ some sh)
      × IsOver st
      × (remove_task_entry debug (store ex p sh st) sh.id ≡ ok ex')

  module _ (k : ℕ) (en : TaskEntry F) (sh : TaskShared) (entry : ex.tasks k ≡ some en)
      (object : ex.shared en.shared ≡ some sh) (e : pop_one debug ex k ≡ ok (removed ex')) where
    marked :
        (st : TaskState)
        → IsOver st
        → pop_one debug ex k
          ≡ (do rest ← remove_task_entry debug (store ex en.shared sh st) sh.id; ok (removed rest))
        → Removal
    marked st over same =
        let back : (remove_task_entry debug (store ex en.shared sh st) sh.id >>= λ rest.
        ok (removed rest))
            ≡ ok (removed ex') =
          sym same ∙ e in
        let (rest, removal, last) =
          parts_of_ok (remove_task_entry debug (store ex en.shared sh st) sh.id) _ back in
        (en.shared, sh, st, object, over, cc)

    removed_in : (st : TaskState) → sh.state ≡ st → Removal
    unfolding pop_one
    removed_in complete_ready at = marked complete tt (rw (pop_one, entry, deref, object, at) refl)
    removed_in aborted_ready at = marked aborted tt (rw (pop_one, entry, deref, object, at) refl)
    removed_in _ at = ground (arith)

  popped_nothing : (k : ℕ) → ex.tasks k ≡ none → pop_one debug ex k ≡ ok (removed ex') → ⊥
  unfolding pop_one
  popped_nothing k absent e = ground arith

  popped_dangling :
      (k : ℕ) (en : TaskEntry F)
      → ex.tasks k ≡ some en
      → ex.shared en.shared ≡ none
      → pop_one debug ex k ≡ ok (removed ex')
      → ⊥
  unfolding pop_one
  popped_dangling k en entry absent e = ground arith

  -- The entry that the main loop removes is that of a task that is over.
  pub removed-Removal : (k : ℕ) → pop_one debug ex k ≡ ok (removed ex') → Removal
  removed-Removal k e = elim (Option-cases (ex.tasks k)) [
    | inl absent ↦ absurd (popped_nothing k absent e)
    | inr (en, entry) ↦ elim (Option-cases (ex.shared en.shared)) [
      | inl absent ↦ absurd (popped_dangling k en entry absent e)
      | inr (sh, object) ↦ removed_in k en sh entry object e sh.state refl
    ]
  ]

  pub Removal-Quiet : Removal → Quiet (λ _. false) ex → Quiet (λ _. false) ex'
  Removal-Quiet (p, sh, st, object, over, e) q =
      remove_task_entry-Quiet (store ex p sh st) (store-Quiet ex q p sh st object over) debug sh.id
        e
