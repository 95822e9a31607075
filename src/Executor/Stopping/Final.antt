-- ===== src/Executor/Stopping/Final.antt =====
-- Between the rounds of the loop of `stop_simulation`, and after it.
use refault.Prelude.{
  ℕ, suc, ◌<◌, ◌≡◌, refl, get_elem?-lt, Bool, true, false, List, Option, some, none, arith, length,
  get_elem?, inl, inr, ◌∙◌, Option-cases,
}
use refault.Executor.State.{Executor, TaskShared, NodeData}
use refault.Executor.Invariant.{Inv}
use refault.Executor.Machine.Stability.{IsOver}
use refault.Executor.Stopping.Actions.{Act}
use refault.Executor.Stopping.Quiet.{Quiet, is_on, QuietSlot}
use refault.Executor.Stopping.Nesting.{Act-Quiet}
use refault.Executor.Stopping.Lasting.{is_final, Act-Lasting}

-- Between two rounds of the loop of `stop_simulation`: the nodes below `from` are stopped for good.
pub record Stopping {F : Type 0} (cur : Option ℕ) (total from : ℕ) (ex : Executor F) : Type 0 where
  pub inv : Inv cur ex
  pub quiet : Quiet (λ _. false) ex
  pub flag : ex.final_stopped ≡ true
  pub size : length ex.nodes ≡ total
  pub below : (n : ℕ) → n < from → is_final ex.nodes n ≡ true

module _ {F : Type 0} {cur : Option ℕ} where
  pub Stopping-start :
      (ex : Executor F)
      → Inv cur ex
      → Quiet (λ _. false) ex
      → Stopping cur (length ex.nodes) 0 (record ex { final_stopped = true })
  Stopping-start ex v q = record {
    inv = record {
      slots = v.slots;
      listed = v.listed;
      placed = v.placed;
      fresh = v.fresh;
      bounded = v.bounded;
    };
    quiet = q;
    flag = refl;
    size = refl;
    below = λ n h. absurd (omega arith);
  }

  -- One round more.
  pub Stopping-next :
      {debug : Bool} (total from : ℕ) {ex ex1 : Executor F}
      → Stopping cur total from ex
      → Act F debug ex ex1
      → is_final ex1.nodes from ≡ true
      → Stopping cur total (suc from) ex1
  Stopping-next total from s act now =
      let (v1, l1) = Act-Lasting act s.inv in
      let (_, q1) = Act-Quiet (λ _. false) act (s.inv, s.quiet) in
      record {
        inv = v1;
        quiet = q1;
        flag = l1.flag s.flag;
        size = l1.nodes s.flag ∙ s.size;
        below = λ k h. ground (arith, l1.final k, s.below k, now);
      }

off_if_final :
    (nodes : List NodeData)
    → ((n : ℕ) → n < length nodes → is_final nodes n ≡ true)
    → (n : ℕ) → is_on nodes n ≡ false
off_if_final nodes all n = elim (Option-cases (get_elem? nodes n)) [
  | inl absent ↦ ground arith
  | inr (d, at) ↦ ground (arith, all n, get_elem?-lt nodes n at)
]

-- A task that is over, if there is one.
abbrev pub OverSlot : Option TaskShared → Type 0
OverSlot none = Unit
OverSlot (some sh) = IsOver sh.state

quiet_off :
    (nodes : List NodeData) (o : Option TaskShared)
    → ((n : ℕ) → is_on nodes n ≡ false)
    → QuietSlot false nodes o
    → OverSlot o
quiet_off nodes none off q = tt
quiet_off nodes (some sh) off q = ground (arith, off sh.node)

-- The simulation is marked as stopped, no node runs, and every task is over.
abbrev pub AllOver : {F : Type 0} → Executor F → Type 0
AllOver ex =
    (ex.final_stopped ≡ true)
    × ((n : ℕ) → is_on ex.nodes n ≡ false)
    × ((i : ℕ) → OverSlot (ex.shared i))

pub Stopping-AllOver :
    {F : Type 0} {cur : Option ℕ} (total : ℕ) (ex : Executor F)
    → Stopping cur total total ex
    → AllOver ex
Stopping-AllOver total ex end =
    let off : (n : ℕ) → is_on ex.nodes n ≡ false =
      off_if_final ex.nodes (λ n h. end.below n (omega (arith, end.size))) in
    (end.flag, off, λ i. quiet_off ex.nodes (ex.shared i) off (end.quiet i))
