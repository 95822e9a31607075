-- ===== src/SendBind.antt =====
-- src/send_bind.rs: values that are bound to a node or to a simulation.
mod Examples
pub mod Anchors
use refault.Prelude.{
  ℕ, zero, suc, ◌+◌, ◌^◌, Bool, List, [], ◌∷◌, Result, ok, panic, assert_failed, unwrap_none,
  assert, ◌>>=◌, ◌>>◌, ltb, ◌==◌, if◌then◌else◌,
}

pub record NodeBound (T : Type 0) : Type 0 where
  pub node : ℕ
  pub inner : T

pub record SimBound (T : Type 0) : Type 0 where
  pub inner : T
  pub id : ℕ

-- How a destructor ends, and what the world is then. An abort ends the process.
pub data Dropped (W : Type 0) : Type 0 where
  returned panicked : W → Dropped W
  aborted : Dropped W

module _ {T : Type 0} where
  -- `NodeBound::from` and `SimBound::from`, on the current node and the thread's anchor.
  unfoldable pub node_bound : ℕ → T → NodeBound T
  node_bound current value = record { node = current; inner = value }

  unfoldable pub sim_bound : ℕ → T → SimBound T
  sim_bound anchor value = record { inner = value; id = anchor }

  -- `NodeBound::check` and `SimBound::check`
  abbrev pub check_node : ℕ → NodeBound T → Result (Unit {0})
  check_node current b = assert (b.node == current) assert_failed

  abbrev pub check_sim : ℕ → SimBound T → Result (Unit {0})
  check_sim anchor b = assert (b.id == anchor) assert_failed

  -- `unwrap_node_bound` and `unwrap_sim_bound`; `deref` has the same guard and reads the same value.
  unfoldable pub unwrap_node_bound : ℕ → NodeBound T → Result T
  unwrap_node_bound current b = do check_node current b; ok b.inner

  unfoldable pub unwrap_sim_bound : ℕ → SimBound T → Result T
  unwrap_sim_bound anchor b = do check_sim anchor b; ok b.inner

  -- The destructors; `drop_inner` is that of `T`.
  module _ {W : Type 0} (drop_inner : T → W → W) where
    unfoldable pub drop_node_bound : ℕ → NodeBound T → W → Dropped W
    drop_node_bound current b w = elim (check_node current b) [
      | ok _ ↦ returned (drop_inner b.inner w)
      | panic _ ↦ panicked (drop_inner b.inner w)
    ]

    unfoldable pub drop_sim_bound : ℕ → SimBound T → W → Dropped W
    drop_sim_bound anchor b w = elim (check_sim anchor b) [
      | ok _ ↦ returned (drop_inner b.inner w)
      | panic _ ↦ aborted
    ]

-- `ThreadAnchor::new` on the process-wide counter: the anchor's id and the counter after it.
unfoldable pub new_anchor : ℕ → Result (ℕ × ℕ)
new_anchor next = if ltb (next + 1) (2 ^ 64) then ok (next + 1, next + 1) else panic unwrap_none

-- The anchors of a number of simulations, in the order in which they are made.
unfoldable pub anchors : ℕ → ℕ → Result (List ℕ)
unfolding new_anchor
anchors zero next = ok []
anchors (suc n) next = do (id, next') ← new_anchor next; ids ← anchors n next'; ok (id ∷ ids)
