-- ===== src/Executor/Invariant/Aborting.antt =====
-- `abort_local` keeps the invariant.
use refault.Prelude.{ℕ, ◌≡◌, Option, ok, arith, count-push}
use refault.Executor.State.{Executor}
use refault.Executor.Tasks.{abort_local}
use refault.Executor.Invariant.{Inv}

module _ {F : Type 0} {c : Option ℕ} {ex ex' : Executor F} where
  pub abort_local-Inv :
      (id : ℕ) {dropped : Option F} → Inv c ex → abort_local ex id ≡ ok (dropped, ex') → Inv c ex'
  unfolding abort_local
  abort_local-Inv id v e = record {
    slots = λ i. ground (arith, v.slots i, v.slots id, count-push i id ex.ready_queue);
    listed = λ i n. ground (arith, v.slots id, v.listed i n);
    placed = λ i. ground (arith, v.slots id, v.placed i);
    fresh = λ i h. ground (arith, v.slots id, v.fresh i);
    bounded = ground (arith, v.bounded);
  }
