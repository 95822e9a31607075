-- ===== src/Simulators/Order.antt =====
-- The order in which `for_all_simulators` calls the simulators.
use mathlib.Core.List.{append_assoc}
use refault.Prelude.{
  ℕ, suc, ◌+◌, ◌-◌, ◌≡◌, refl, sym, ap, true, false, List, [], ◌∷◌, ◌++◌, map, Option, none, some,
  Map, Result, Result-cases, parts_of_ok, ==_refl, ok, ◌>>=◌, length, length-append, get_elem?,
  get_elem?-set, set, Bool, if◌then◌else◌, arith, inl, inr,
}
use refault.Simulators.{SimCxl, visit, visit_from, for_all_simulators}

-- The slots of simulators that were called in the order of the list, last slot first.
abbrev pub from_last {ℓ} : {A : Type ℓ} → List A → List (Option A) → List (Option A)
from_last [] slots = slots
from_last (x ∷ xs) slots = from_last xs (some x ∷ slots)

module _ {ℓ} {A : Type ℓ} where
  get_elem?-middle :
      (xs : List (Option A)) (y : Option A) (ys : List (Option A))
      → get_elem? (xs ++ y ∷ ys) (length xs) ≡ some y
  get_elem?-middle [] y ys = refl
  get_elem?-middle (x ∷ xs) y ys = get_elem?-middle xs y ys

  set-middle :
      (xs : List (Option A)) (y z : Option A) (ys : List (Option A))
      → set (xs ++ y ∷ ys) (length xs) z ≡ xs ++ z ∷ ys
  set-middle [] y z ys = refl
  set-middle (x ∷ xs) y z ys = ap (λ rest. x ∷ rest) (set-middle xs y z ys)

  get_elem?-from_last :
      (xs : List A) (k : ℕ) (slots : List (Option A))
      → get_elem? (from_last xs slots) (length xs + k) ≡ get_elem? slots k
  get_elem?-from_last [] k slots = ground arith
  get_elem?-from_last (x ∷ xs) k slots =
      ground (arith, get_elem?-from_last xs (suc k) (some x ∷ slots))

  set-from_last :
      (xs : List A) (k : ℕ) (z : Option A) (slots : List (Option A))
      → set (from_last xs slots) (length xs + k) z ≡ from_last xs (set slots k z)
  set-from_last [] k z slots = ground arith
  set-from_last (x ∷ xs) k z slots = ground (arith, set-from_last xs (suc k) z (some x ∷ slots))

  length-from_last :
      (xs : List A) (slots : List (Option A))
      → length (from_last xs slots) ≡ length xs + length slots
  length-from_last [] slots = ground arith
  length-from_last (x ∷ xs) slots = ground (arith, length-from_last xs (some x ∷ slots))

module _ {S X : Type 0} (by_type : Map ℕ) (g : S → X → Result (S × X)) where
  -- A callback that leaves the registry alone.
  abbrev pub callback : S → SimCxl S X → Result (S × SimCxl S X)
  callback s cx = do (s', x) ← g s cx.rest; ok (s', record cx { rest = x })

  -- The calls one after another, in the order of the list.
  abbrev pub call_each : List S → X → Result (List S × X)
  call_each [] x = ok ([], x)
  call_each (s ∷ ss) x = do (s', x') ← g s x; (ss', x'') ← call_each ss x'; ok (s' ∷ ss', x'')

  abbrev pub registry : List (Option S) → X → SimCxl S X
  registry slots x = record { simulators_by_type = by_type; simulators = slots; rest = x }

  abbrev index : ℕ → ℕ → Bool → ℕ
  index len i forward = if forward then i else len - 1 - i

  -- The slots after the call of the simulator at an index has returned.
  abbrev called : List (Option S) → ℕ → S → List (Option S)
  called slots k s = set (set slots k none) k (some s)

  module _ (len i : ℕ) (forward : Bool) (slots : List (Option S)) (s : S) (x : X)
      (here : get_elem? slots (index len i forward) ≡ some (some s)) where
    emptied : get_elem? (set slots (index len i forward) none) (index len i forward) ≡ some none
    emptied =
        ground (arith, get_elem?-set slots (index len i forward) (index len i forward) none here)

    -- One round.
    round :
        visit len forward callback i none (registry slots x)
        ≡ (do (s', x') ← g s x; ok (none, registry (called slots (index len i forward) s') x'))
    unfolding visit
    round = elim (Result-cases (g s x)) [
      | inl ((s', x'), e) ↦ rw (visit, here, e, emptied) refl
      | inr (why, e) ↦ rw (visit, here, e) refl
    ]

  called-middle :
      (done rest : List (Option S)) (s s' : S)
      → called (done ++ some s ∷ rest) (length done) s' ≡ (done ++ some s' ∷ []) ++ rest
  called-middle done rest s s' =
      rw (set-middle done (some s) none rest, set-middle done none (some s') rest)
        (sym (append_assoc done (some s' ∷ []) rest))

  next_position :
      (done : List (Option S)) (s : S) → suc (length done) ≡ length (done ++ some s ∷ [])
  next_position done s = ground (arith, length-append done (some s ∷ []))

  -- The forward loop, with the slots before and after the position.
  forward_from :
      (len : ℕ) (done : List (Option S)) (todo : List S) (x : X)
      → visit_from len true callback
          (length done)
          (length todo)
          none
          (registry (done ++ map some todo) x)
        ≡ (do (ss, x') ← call_each todo x; ok (registry (done ++ map some ss) x'))
  unfolding visit_from
  forward_from len done [] x = refl
  forward_from len done (s ∷ todo) x =
      rw
        (
          visit_from,
          round len (length done) true (done ++ map some (s ∷ todo)) s x
              (get_elem?-middle done (some s) (map some todo)),
        )
        (elim (Result-cases (g s x)) [
          | inl ((s', x'), e) ↦
              rw
                (
                  e,
                  called-middle done (map some todo) s s',
                  next_position done s',
                  forward_from len (done ++ some s' ∷ []) todo x',
                )
                (elim (Result-cases (call_each todo x')) [
                  | inl ((ss, x''), rest) ↦
                      rw (rest, append_assoc done (some s' ∷ []) (map some ss)) refl
                  | inr (why, rest) ↦ rw (rest) refl
                ])
          | inr (why, e) ↦ rw (e) refl
        ])

  called-last :
      (todo : List S) (done : List (Option S)) (s s' : S)
      → called (from_last todo (some s ∷ done)) (length todo + 0) s'
        ≡ from_last todo (some s' ∷ done)
  called-last todo done s s' =
      rw (set-from_last todo 0 none (some s ∷ done), set-from_last todo 0 (some s') (none ∷ done))
        refl

  last_index :
      (len : ℕ) (todo : List S) (done : List (Option S))
      → len ≡ suc (length todo) + length done
      → length todo + 0 ≡ index len (length done) false
  last_index len todo done total = ground arith

  -- The backward loop, with the slots that were not visited yet, last one first.
  backward_from :
      (len : ℕ) (done : List (Option S)) (todo : List S) (x : X)
      → len ≡ length todo + length done
      → visit_from len false callback
          (length done)
          (length todo)
          none
          (registry (from_last todo done) x)
        ≡ (do (ss, x') ← call_each todo x; ok (registry (from_last ss done) x'))
  unfolding visit_from
  backward_from len done [] x total = refl
  backward_from len done (s ∷ todo) x total =
      rw
        (
          visit_from,
          round len (length done) false (from_last todo (some s ∷ done)) s x
              (rw (← last_index len todo done total) (get_elem?-from_last todo 0 (some s ∷ done))),
        )
        (elim (Result-cases (g s x)) [
          | inl ((s', x'), e) ↦
              rw
                (
                  e,
                  ← last_index len todo done total,
                  called-last todo done s s',
                  backward_from len (some s' ∷ done) todo x' (ground arith),
                )
                (elim (Result-cases (call_each todo x')) [
                  | inl ((ss, x''), rest) ↦ rw (rest) refl
                  | inr (why, rest) ↦ rw (rest) refl
                ])
          | inr (why, e) ↦ rw (e) refl
        ])

  length-call_each :
      (ss : List S) (x : X) {ss' : List S} {x' : X}
      → call_each ss x ≡ ok (ss', x')
      → length ss' ≡ length ss
  length-call_each [] x e = ground arith
  length-call_each (s ∷ ss) x {ss'} {x'} e =
      let ((s1, x1), first, later) = parts_of_ok (g s x) _ e in
      let ((ss2, x2), others, last) = parts_of_ok (call_each ss x1) _ later in
      ground (arith, length-call_each ss x1 others)

  length-map : (ss : List S) → length (map (λ s. Option.some s) ss) ≡ length ss
  length-map [] = refl
  length-map (s ∷ ss) = ap suc (length-map ss)

  length-from_last_nil : (ss : List S) → length (from_last ss []) ≡ length ss
  length-from_last_nil ss = ground (arith, length-from_last ss [])

  -- In a registry whose simulators are all in their slots, and for a callback that leaves the
  -- registry alone, the forward pass calls every simulator once, in the order of the registration;
  -- the backward pass calls every simulator once, last one first. Each simulator ends up in its own
  -- slot, and neither pass panics unless a callback does.
  pub for_all_simulators_lem :
      (ss : List S) (x : X)
      → (for_all_simulators true callback (registry (map some ss) x)
          ≡ (do (ss', x') ← call_each ss x; ok (registry (map some ss') x')))
        × (for_all_simulators false callback (registry (from_last ss []) x)
            ≡ (do (ss', x') ← call_each ss x; ok (registry (from_last ss' []) x')))
  unfolding for_all_simulators
  for_all_simulators_lem ss x = (
    rw (for_all_simulators, length-map ss, forward_from (length ss) [] ss x)
        (elim (Result-cases (call_each ss x)) [
          | inl ((ss', x'), e) ↦
              rw (e, length-map ss', length-call_each ss x e, ==_refl (length ss)) refl
          | inr (why, e) ↦ rw (e) refl
        ]),
    rw
        (
          for_all_simulators,
          length-from_last_nil ss,
          backward_from (length ss) [] ss x (ground arith),
        )
        (elim (Result-cases (call_each ss x)) [
          | inl ((ss', x'), e) ↦
              rw (e, length-from_last_nil ss', length-call_each ss x e, ==_refl (length ss)) refl
          | inr (why, e) ↦ rw (e) refl
        ]),
  )
