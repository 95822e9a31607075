-- ===== src/Simulation/NodeSimulators.antt =====
-- src/simulator.rs: access to the entry of a node in a `PerNode`.
use refault.Prelude.{
  ℕ, ◌≡◌, refl, none, some, is_some, Result, Result-cases, ok, panic, unwrap_none, out_of_range,
  assert, ◌>>=◌, ◌>>◌, get_elem?, set, inl, inr,
}
use refault.Simulators.{SimCxl, PerNode, with_handle, with_simulator_option}
use refault.Simulators.Locking.{Unlocked, locks, unlocks}
use refault.Simulation.{Cx}

module _ {N F H R : Type 0} where
  -- `f(&mut s.simulators[node.to_index()])`
  access :
      ℕ
      → (N → SimCxl (PerNode N) (Cx F H) → Result (R × N × SimCxl (PerNode N) (Cx F H)))
      → PerNode N
      → SimCxl (PerNode N) (Cx F H)
      → Result (R × PerNode N × SimCxl (PerNode N) (Cx F H))
  access node f s cx = elim (get_elem? s.simulators node) [
    | none ↦ panic out_of_range
    | some x ↦ do
      (r, x', cx') ← f x cx
      ok (r, record { simulators = set s.simulators node x' }, cx')
  ]

  -- `SimulatorHandle::with_node`
  unfoldable pub with_node :
      (type node : ℕ)
      → (N → SimCxl (PerNode N) (Cx F H) → Result (R × N × SimCxl (PerNode N) (Cx F H)))
      → SimCxl (PerNode N) (Cx F H)
      → Result (R × SimCxl (PerNode N) (Cx F H))
  unfolding with_handle access
  with_node type node f cx = with_handle type (access node f) cx

  -- `SimulatorHandle::with_current_node`
  unfoldable pub with_current_node :
      (type : ℕ)
      → (N → SimCxl (PerNode N) (Cx F H) → Result (R × N × SimCxl (PerNode N) (Cx F H)))
      → SimCxl (PerNode N) (Cx F H)
      → Result (R × SimCxl (PerNode N) (Cx F H))
  unfolding with_node
  with_current_node type f cx = with_node type cx.rest.current_node f cx

  -- `with_node_simulator`
  unfoldable pub with_node_simulator :
      (type : ℕ)
      → (N → SimCxl (PerNode N) (Cx F H) → Result (R × N × SimCxl (PerNode N) (Cx F H)))
      → SimCxl (PerNode N) (Cx F H)
      → Result (R × SimCxl (PerNode N) (Cx F H))
  unfolding with_current_node
  with_node_simulator type f cx = do
    assert (is_some (cx.simulators_by_type type)) unwrap_none
    with_current_node type f cx

  -- A closure that leaves the registry alone.
  abbrev pub calmly :
      (N → Cx F H → Result (R × N × Cx F H))
      → N
      → SimCxl (PerNode N) (Cx F H)
      → Result (R × N × SimCxl (PerNode N) (Cx F H))
  calmly g x cx = do (r, x', rest) ← g x cx.rest; ok (r, x', record cx { rest = rest })

  accesses :
      (node : ℕ)
      (f : N → SimCxl (PerNode N) (Cx F H) → Result (R × N × SimCxl (PerNode N) (Cx F H)))
      (s : PerNode N) (cx : SimCxl (PerNode N) (Cx F H)) (x : N)
      → get_elem? s.simulators node ≡ some x
      → access node f s cx
        ≡ (do (r, x', cx') ← f x cx; ok (r, record { simulators = set s.simulators node x' }, cx'))
  unfolding access
  accesses node f s cx x here = rw (access, here) refl

  -- With a `PerNode` that nobody uses and that has an entry for the current node, the closure is handed
  -- this entry, and what it leaves in it is in its place afterwards, for a closure that leaves the
  -- registry alone.
  pub with_node_simulator_lem :
      (cx : SimCxl (PerNode N) (Cx F H)) (type index : ℕ) (s : PerNode N) (x : N)
      (g : N → Cx F H → Result (R × N × Cx F H))
      → Unlocked cx type index s
      → get_elem? s.simulators cx.rest.current_node ≡ some x
      → with_node_simulator type (calmly g) cx ≡ (do
        (r, x', rest) ← g x cx.rest
        ok (
          r,
          record cx {
            simulators =
                set
                  (set cx.simulators index none)
                  index
                  (some (record { simulators = set s.simulators cx.rest.current_node x' }));
            rest = rest;
          },
        ))
  unfolding with_node_simulator with_handle with_simulator_option
  with_node_simulator_lem cx type index s x g free here =
      let (known, _) = free in
      elim (Result-cases (g x cx.rest)) [
        | inl ((r, x', rest), e) ↦
            rw
              (
                with_node_simulator,
                locks cx type index s free,
                known,
                accesses cx.rest.current_node (calmly g) s
                    (record cx { simulators = set cx.simulators index none }) x here,
                e,
                unlocks cx type index s free
                    (record { simulators = set s.simulators cx.rest.current_node x' }) rest,
              )
              refl
        | inr (why, e) ↦
            rw
              (
                with_node_simulator,
                locks cx type index s free,
                known,
                accesses cx.rest.current_node (calmly g) s
                    (record cx { simulators = set cx.simulators index none }) x here,
                e,
              )
              refl
      ]
