-- ===== src/Simulators/Locking.antt =====
-- Exclusive access to a simulator.
use refault.Prelude.{
  ℕ, ◌≡◌, refl, Bool, none, some, Result, Result-cases, ok, panic, arith, get_elem?, get_elem?-set,
  get_elem?-lt, set, already_borrowed, get_elem?-push, length, ◌>>=◌, inl, inr, false,
}
use refault.Simulators.{SimCxl, add_simulator, lock, unlock, with_simulator}

module _ {S X : Type 0} where
  -- A simulator of the type is registered, and nobody uses it.
  abbrev pub Unlocked : SimCxl S X → ℕ → ℕ → S → Type 0
  Unlocked cx type index s =
      (cx.simulators_by_type type ≡ some index) × (get_elem? cx.simulators index ≡ some (some s))

  -- `add_simulator` returns only while there is one node, the simulation is not stopping, and the
  -- type is new. Then the simulator can be used, and every other one as before.
  pub add_simulator_lem :
      (node_count : ℕ) (final : Bool) (type : ℕ) (s : S) (cx : SimCxl S X) {cx' : SimCxl S X}
      → add_simulator node_count final type s cx ≡ ok cx'
      → (node_count ≡ 1)
        × (final ≡ false)
        × (cx.simulators_by_type type ≡ none)
        × Unlocked cx' type (length cx.simulators) s
        × ((other index : ℕ) (t : S) → Unlocked cx other index t → Unlocked cx' other index t)
  unfolding add_simulator
  add_simulator_lem node_count final type s cx e = (
    ground arith,
    ground arith,
    ground arith,
    (ground arith, ground (arith, get_elem?-push cx.simulators (length cx.simulators) (some s))),
    λ other index t (known, here). (
      ground arith,
      ground (
        arith,
        get_elem?-push cx.simulators index (some s),
        get_elem?-lt cx.simulators index here,
      ),
    ),
  )

  module _ (cx : SimCxl S X) (type index : ℕ) (s : S) (free : Unlocked cx type index s) where
    pub locks :
        lock type cx ≡ ok (some (index, s), record cx { simulators = set cx.simulators index none })
    unfolding lock
    locks = let (known, here) = free in ground arith

    emptied : get_elem? (set cx.simulators index none) index ≡ some none
    emptied =
        let (known, here) = free in
        ground (arith, get_elem?-set cx.simulators index index none here)

    pub unlocks :
        (s' : S) (x : X)
        → unlock index s' (record cx { simulators = set cx.simulators index none; rest = x })
          ≡ ok (record cx {
            simulators = set (set cx.simulators index none) index (some s');
            rest = x;
          })
    unfolding unlock
    unlocks s' x =
        let (known, here) = free in
        ground (arith, get_elem?-set cx.simulators index index none here)

  module _ {R : Type 0} (cx : SimCxl S X) (type index : ℕ) (s : S)
      (free : Unlocked cx type index s) where
    abbrev pub calm : (S → X → Result (R × S × X)) → S → SimCxl S X → Result (R × S × SimCxl S X)
    calm g s cx = do (r, s', x) ← g s cx.rest; ok (r, s', record cx { rest = x })

    -- Inside an access to a type, another one.
    abbrev pub nested :
        (S → SimCxl S X → Result (R × S × SimCxl S X))
        → S
        → SimCxl S X
        → Result (R × S × SimCxl S X)
    nested f s cx = do (r, cx') ← with_simulator type f cx; ok (r, s, cx')

    -- The simulator of a type that nobody uses is handed to the closure, and what the closure leaves
    -- in it is back in its slot afterwards, the other slots unchanged, for a closure that leaves the
    -- registry alone. A second access inside the first one, with any closure, panics as announced.
    pub with_simulator_lem :
        (g : S → X → Result (R × S × X)) (f : S → SimCxl S X → Result (R × S × SimCxl S X))
        → (with_simulator type (calm g) cx ≡ (do
          (r, s', x) ← g s cx.rest
          ok (
            r,
            record cx { simulators = set (set cx.simulators index none) index (some s'); rest = x },
          )))
          × (with_simulator type (nested f) cx ≡ panic already_borrowed)
    unfolding with_simulator
    with_simulator_lem g f =
        let (known, here) = free in
        (
          elim (Result-cases (g s cx.rest)) [
            | inl ((r, s', x), e) ↦
                rw
                  (
                    with_simulator,
                    locks cx type index s free,
                    known,
                    e,
                    unlocks cx type index s free s' x,
                  )
                  refl
            | inr (why, e) ↦ rw (with_simulator, locks cx type index s free, known, e) refl
          ],
          rw (with_simulator, locks cx type index s free, known, emptied cx type index s free) refl,
        )
