-- ===== src/Simulators.antt =====
-- src/simulator.rs: the registry of simulators, exclusive access to one, and the notification of
-- all. A `TypeId` is a number, `S` holds the values of all simulator types, and `X` is the rest of
-- the simulation, which callbacks reach through the context.
mod Examples
pub mod Order
pub mod Locking
use refault.Prelude.{
  ℕ, zero, suc, ◌-◌, Bool, true, false, not, ◌&&◌, List, [], ◌∷◌, ◌++◌, Option, none, some, is_some,
  Map, update, Result, ok, panic, assert_failed, unwrap_none, out_of_range, already_borrowed,
  assert, ◌>>=◌, ◌>>◌, length, get_elem?, set, ◌==◌, if◌then◌else◌,
}

-- The fields of `SimCxl` that this file uses, and the rest.
pub record SimCxl (S X : Type 0) : Type 0 where
  pub simulators_by_type : Map ℕ
  pub simulators : List (Option S)
  pub rest : X

module _ {S X : Type 0} where
  abbrev pub fill : SimCxl S X → ℕ → Option S → SimCxl S X
  fill cx index slot = record cx { simulators = set cx.simulators index slot }

  -- `add_simulator`, on what the executor says of its nodes and of the end of the simulation.
  unfoldable pub add_simulator : ℕ → Bool → ℕ → S → SimCxl S X → Result (SimCxl S X)
  add_simulator node_count is_final_stopping type simulator cx = do
    assert ((node_count == 1) && not is_final_stopping) assert_failed
    assert (not (is_some (cx.simulators_by_type type))) assert_failed
    ok (record cx {
      simulators_by_type = update cx.simulators_by_type type (some (length cx.simulators));
      simulators = cx.simulators ++ some simulator ∷ [];
    })

  -- `cx.simulators[index].take()`, which panics on an empty slot.
  take_from : SimCxl S X → ℕ → Option (Option S) → Result (Option (ℕ × S) × SimCxl S X)
  take_from cx index none = panic out_of_range
  take_from cx index (some none) = panic already_borrowed
  take_from cx index (some (some simulator)) = ok (some (index, simulator), fill cx index none)

  -- The first critical section of `with_simulator_option`: the simulator of a type is taken.
  unfoldable pub lock : ℕ → SimCxl S X → Result (Option (ℕ × S) × SimCxl S X)
  unfolding take_from
  lock type cx = elim (cx.simulators_by_type type) [
    | none ↦ ok (none, cx)
    | some index ↦ take_from cx index (get_elem? cx.simulators index)
  ]

  restore : SimCxl S X → ℕ → S → Option (Option S) → Result (SimCxl S X)
  restore cx index simulator none = panic out_of_range
  restore cx index simulator (some (some other)) = panic assert_failed
  restore cx index simulator (some none) = ok (fill cx index (some simulator))

  -- The guard's destructor: the simulator is put back.
  unfoldable pub unlock : ℕ → S → SimCxl S X → Result (SimCxl S X)
  unfolding restore
  unlock index simulator cx = restore cx index simulator (get_elem? cx.simulators index)

  module _ {R : Type 0} where
    locked :
        (S → SimCxl S X → Result (R × S × SimCxl S X))
        → (SimCxl S X → Result (R × SimCxl S X))
        → Option (ℕ × S)
        → SimCxl S X
        → Result (R × SimCxl S X)
    unfolding unlock
    locked on_some on_none none cx = on_none cx
    locked on_some on_none (some (index, simulator)) cx = do
      (r, simulator', cx') ← on_some simulator cx
      cx'' ← unlock index simulator' cx'
      ok (r, cx'')

    -- `with_simulator_option`; `f` is given by what it does with a simulator and with `None`.
    unfoldable pub with_simulator_option :
        ℕ
        → (S → SimCxl S X → Result (R × S × SimCxl S X))
        → (SimCxl S X → Result (R × SimCxl S X))
        → SimCxl S X
        → Result (R × SimCxl S X)
    unfolding lock locked
    with_simulator_option type on_some on_none cx = do
      (taken, cx') ← lock type cx
      locked on_some on_none taken cx'

    -- `SimulatorHandle::with`
    unfoldable pub with_handle :
        ℕ → (S → SimCxl S X → Result (R × S × SimCxl S X)) → SimCxl S X → Result (R × SimCxl S X)
    unfolding with_simulator_option
    with_handle type f cx = with_simulator_option type f (λ _. panic unwrap_none) cx

    -- `with_simulator`: `SimulatorHandle::get`, which panics without such a simulator, then `with`.
    unfoldable pub with_simulator :
        ℕ → (S → SimCxl S X → Result (R × S × SimCxl S X)) → SimCxl S X → Result (R × SimCxl S X)
    unfolding with_handle
    with_simulator type f cx = do
      assert (is_some (cx.simulators_by_type type)) unwrap_none
      with_handle type f cx

  -- `swap`: the slot and the local variable exchange their contents.
  abbrev pub swap : ℕ → Option S → SimCxl S X → Result (Option S × SimCxl S X)
  swap index held cx = elim (get_elem? cx.simulators index) [
    | none ↦ panic out_of_range
    | some slot ↦ ok (slot, fill cx index held)
  ]

  module _ (len : ℕ) (forward : Bool) (f : S → SimCxl S X → Result (S × SimCxl S X)) where
    abbrev pub call : Option S → SimCxl S X → Result (S × SimCxl S X)
    call none cx = panic already_borrowed
    call (some simulator) cx = f simulator cx

    -- The body of the loop of `for_all_simulators`, with the local variable `simulator`.
    unfoldable pub visit : ℕ → Option S → SimCxl S X → Result (Option S × SimCxl S X)
    visit i held cx = do
      let index = if forward then i else len - 1 - i
      (taken, cx1) ← swap index held cx
      (simulator, cx2) ← call taken cx1
      swap index (some simulator) cx2

    -- The loop, from `i` on for the given number of rounds.
    unfoldable pub visit_from : ℕ → ℕ → Option S → SimCxl S X → Result (SimCxl S X)
    unfolding visit
    visit_from i zero held cx = ok cx
    visit_from i (suc rounds) held cx = elim (visit i held cx) [
      | ok (held', cx') ↦ visit_from (suc i) rounds held' cx'
      | panic why ↦ panic why
    ]

  unfoldable pub for_all_simulators :
      Bool → (S → SimCxl S X → Result (S × SimCxl S X)) → SimCxl S X → Result (SimCxl S X)
  unfolding visit_from
  for_all_simulators forward f cx = do
    let len = length cx.simulators
    cx' ← visit_from len forward f 0 len none cx
    assert (length cx'.simulators == len) assert_failed
    ok cx'

-- `PerNode`, without the closure with which it makes the entry of a new node.
pub record PerNode (N : Type 0) : Type 0 where
  pub simulators : List N
