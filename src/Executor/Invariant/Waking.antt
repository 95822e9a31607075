-- ===== src/Executor/Invariant/Waking.antt =====
-- `wake` keeps the invariant.
use refault.Prelude.{ℕ, ◌≡◌, Option, ok, arith, count-push}
use refault.Executor.State.{Executor}
use refault.Executor.Tasks.{wake}
use refault.Executor.Invariant.{Inv}

module _ {F : Type 0} {c : Option ℕ} {ex ex' : Executor F} where
  pub wake-Inv : (p : ℕ) → Inv c ex → wake ex p ≡ ok ex' → Inv c ex'
  unfolding wake
  wake-Inv p v e = record {
    slots = λ i. ground (arith, v.slots i, v.slots p, count-push i p ex.ready_queue);
    listed = λ i n. ground (arith, v.listed i n);
    placed = λ i. ground (arith, v.placed i);
    fresh = λ i h. ground (arith, v.fresh i);
    bounded = ground (arith, v.bounded);
  }
