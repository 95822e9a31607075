-- ===== src/Simulation/Stopping/Slots.antt =====
-- All simulators are notified without a panic when none is in use and their callbacks return.
use refault.Prelude.{
  ℕ, zero, suc, ◌+◌, ◌-◌, ◌<◌, ◌≡◌, ◌∙◌, refl, Bool, true, false, List, Option, Option-cases, some,
  none, is_some, Result, ok, arith, length, length-set, get_elem?, get_elem?-some, get_elem?-set,
  set, inl, inr, ◌==◌, ==_refl, if◌then◌else◌,
}
use refault.Simulators.{SimCxl, visit, visit_from, for_all_simulators}

-- Whether a simulator is in the slot, so that it is not in use.
abbrev pub there : {S : Type 0} → List (Option S) → ℕ → Bool
there slots k = elim (get_elem? slots k) [ none ↦ false | some slot ↦ is_some slot ]

-- Every simulator is in its slot.
abbrev pub AllThere : {S : Type 0} → List (Option S) → Type 0
AllThere slots = (k : ℕ) → k < length slots → there slots k ≡ true

-- Simulators are neither added nor taken away, whatever happens to their values.
abbrev pub SameSlots : {S : Type 0} → List (Option S) → List (Option S) → Type 0
SameSlots slots slots' = (length slots' ≡ length slots) × ((k : ℕ) → there slots' k ≡ there slots k)

module _ {S : Type 0} (slots : List (Option S)) where
  pub filled : (k : ℕ) → there slots k ≡ true → (s : S) × (get_elem? slots k ≡ some (some s))
  filled k here = elim (Option-cases (get_elem? slots k)) [
    | inl absent ↦ ground arith
    | inr (none, at) ↦ ground arith
    | inr (some s, at) ↦ (s, at)
  ]

  emptied : (k : ℕ) → k < length slots → there slots k ≡ false → get_elem? slots k ≡ some none
  emptied k below gone = let (slot, at) = get_elem?-some slots k below in ground arith

  there-set :
      (k j : ℕ) (slot slot' : Option S)
      → get_elem? slots k ≡ some slot
      → there (set slots k slot') j ≡ (if k == j then is_some slot' else there slots j)
  there-set k j slot slot' at = ground (arith, get_elem?-set slots k j slot' at)

module _ {S X : Type 0} (Holds : X → Type 0) (f : S → SimCxl S X → Result (S × SimCxl S X))
    (returns : (s : S) (cx : SimCxl S X)
      → Holds cx.rest
      → (s' : S) × (cx' : SimCxl S X) × (f s cx ≡ ok (s', cx'))
        × SameSlots cx.simulators cx'.simulators
        × Holds cx'.rest)
    (len : ℕ) (forward : Bool) where
  visits :
      (i index : ℕ) (cx cx2 : SimCxl S X) (s s' : S)
      → (if forward then i else len - 1 - i) ≡ index
      → get_elem? cx.simulators index ≡ some (some s)
      → f s (record cx { simulators = set cx.simulators index none }) ≡ ok (s', cx2)
      → get_elem? cx2.simulators index ≡ some none
      → visit len forward f i none cx
        ≡ ok (none, record cx2 { simulators = set cx2.simulators index (some s') })
  unfolding visit
  visits i index cx cx2 s s' at here called gone = ground arith

  visit-Returns :
      (i index : ℕ) (cx : SimCxl S X)
      → (if forward then i else len - 1 - i) ≡ index
      → index < length cx.simulators
      → AllThere cx.simulators
      → Holds cx.rest
      → (cx' : SimCxl S X) × (visit len forward f i none cx ≡ ok (none, cx'))
        × SameSlots cx.simulators cx'.simulators
        × Holds cx'.rest
  visit-Returns i index cx at below all h =
      let (s, here) = filled cx.simulators index (all index below) in
      let (s', cx2, called, (size, same), h2) =
        returns s (record cx { simulators = set cx.simulators index none }) h in
      let size1 = length-set cx.simulators index none in
      let gone = emptied cx2.simulators index (omega arith) (
        ground (
          arith,
          same index,
          there-set cx.simulators index index (some s) none here,
          ==_refl index,
        )) in
      (
        record cx2 { simulators = set cx2.simulators index (some s') },
        visits i index cx cx2 s s' at here called gone,
        (
          omega (arith, length-set cx2.simulators index (some s')),
          λ j. ground (
            arith,
            same j,
            there-set cx.simulators index j (some s) none here,
            there-set cx2.simulators index j none (some s') gone,
          ),
        ),
        h2,
      )

  index-lt : (i : ℕ) → i < len → (if forward then i else len - 1 - i) < len
  index-lt i below = ground arith

  visit_from-Returns :
      (i rounds : ℕ) (cx : SimCxl S X)
      → i + rounds ≡ len
      → length cx.simulators ≡ len
      → AllThere cx.simulators
      → Holds cx.rest
      → (cx' : SimCxl S X) × (visit_from len forward f i rounds none cx ≡ ok cx')
        × SameSlots cx.simulators cx'.simulators
        × Holds cx'.rest
  unfolding visit_from
  visit_from-Returns i zero cx sum size all h = (cx, refl, (refl, λ k. refl), h)
  visit_from-Returns i (suc rounds) cx sum size all h =
      let below = index-lt i (omega arith) in
      let (cx1, visited, (size1, same1), h1) =
        visit-Returns i (if forward then i else len - 1 - i) cx refl (omega arith) all h in
      let (cx', rest, (size', same'), h') =
        visit_from-Returns (suc i) rounds cx1 (omega arith) (omega arith)
          (λ k b. same1 k ∙ all k (omega arith)) h1 in
      (cx', rw (visit_from, visited) rest, (size' ∙ size1, λ k. same' k ∙ same1 k), h')

pub for_all_simulators-Returns :
    {S X : Type 0} (Holds : X → Type 0) (f : S → SimCxl S X → Result (S × SimCxl S X))
    (returns : (s : S) (cx : SimCxl S X)
      → Holds cx.rest
      → (s' : S) × (cx' : SimCxl S X) × (f s cx ≡ ok (s', cx'))
        × SameSlots cx.simulators cx'.simulators
        × Holds cx'.rest)
    (forward : Bool) (cx : SimCxl S X)
    → AllThere cx.simulators
    → Holds cx.rest
    → (cx' : SimCxl S X) × (for_all_simulators forward f cx ≡ ok cx')
      × SameSlots cx.simulators cx'.simulators
      × Holds cx'.rest
unfolding for_all_simulators
for_all_simulators-Returns Holds f returns forward cx all h =
    let len = length cx.simulators in
    let (cx', visited, (size, same), h') =
      visit_from-Returns Holds f returns len forward 0 len cx (omega arith) refl all h in
    (cx', ground (arith, ==_refl len), (size, same), h')
