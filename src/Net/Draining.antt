-- ===== src/Net/Draining.antt =====
-- `Net::start_node`: which inboxes it empties.
use refault.Prelude.{
  ℕ, zero, suc, ◌<◌, ◌≡◌, refl, ap, subst, Bool, true, false, Bool-cases, inl, inr, ◌||◌, List, [],
  ◌∷◌, length, Option, none, some, Option-cases, is_some, Map, update, ok, arith, ◌==◌,
}
use refault.Net.Channel.{LocalChannel, ChannelLaws, capacity}
use refault.Net.Table.{Key, listed}
use refault.Net.{Message, drain, drain_node}

module _ {C P : Type 0} (ch : LocalChannel C (Message P)) (laws : ChannelLaws ch) where
  step :
      (fuel : ℕ) (c : C) (m : Message P) (c' : C)
      → ch.try_receive c ≡ some (m, c')
      → drain ch (suc fuel) c ≡ drain ch fuel c'
  unfolding drain
  step fuel c m c' e = rw (e, drain) refl

  stop : (fuel : ℕ) (c : C) → ch.try_receive c ≡ none → drain ch (suc fuel) c ≡ ok c
  unfolding drain
  stop fuel c e = rw (e, drain) refl

  drain_lem :
      (fuel : ℕ) (c : C)
      → length (laws.contents c) < fuel
      → (c' : C) × (drain ch fuel c ≡ ok c') × (laws.contents c' ≡ [])
  drain_lem zero c enough = absurd (omega arith)
  drain_lem (suc fuel) c enough = elim (Option-cases (ch.try_receive c)) [
    | inl e ↦ (c, stop fuel c e, laws.empty c e)
    | inr ((m, c'), e) ↦
        let shorter = ap length (laws.received c m c' e) in
        let (end, drained, none_left) = drain_lem fuel c' (omega arith) in
        (end, rw (step fuel c m c' e) drained, none_left)
  ]

  -- A cell of the heap after the loop: emptied if it was listed, and as it was otherwise.
  abbrev pub Drained : Bool → Option C → Option C → Type 0
  Drained false before after = after ≡ before
  Drained true (some b) (some c) = laws.contents c ≡ []
  Drained true _ _ = ⊥

  through :
      (head tail : Bool) (before between after : Option C)
      → Drained head before between
      → Drained tail between after
      → Drained (head || tail) before after
  through true true none between after h t = absurd h
  through true true (some b) none after h t = absurd h
  through true true (some b) (some x) none h t = absurd t
  through true true (some b) (some x) (some c) h t = t
  through true false before between after h t = rw t h
  through false true before between after h t = subst (λ (x : Option C). Drained true x after) h t
  through false false before between after h t = rw t h

  -- What the loop comes to.
  abbrev pub Emptied : ℕ → List (Key × ℕ) → Map C → Type 0
  Emptied node entries heap =
      (heap' : Map C) × (drain_node ch node entries heap ≡ ok heap')
      × ((a : ℕ) → Drained (listed node entries a) (heap a) (heap' a))

  module _ (node inbox : ℕ) (key : Key) (entries : List (Key × ℕ)) (heap : Map C) where
    passes :
        (key.addr.node == node) ≡ false
        → Emptied node entries heap
        → Emptied node ((key, inbox) ∷ entries) heap
    unfolding drain_node
    passes other (heap', same, states) =
        (heap', rw (drain_node, other) same, λ a. ground (arith, states a))

    empties :
        (c c' : C)
        → (key.addr.node == node) ≡ true
        → heap inbox ≡ some c
        → drain ch (suc capacity) c ≡ ok c'
        → laws.contents c' ≡ []
        → Emptied node entries (update heap inbox (some c'))
        → Emptied node ((key, inbox) ∷ entries) heap
    unfolding drain_node
    empties c c' own here drained nothing (heap', same, states) = (
      heap',
      rw (drain_node, own, here, drained) same,
      λ a. rw own (
          through (inbox == a) (listed node entries a) (heap a) (update heap inbox (some c') a)
            (heap' a) (ground arith) (states a)),
    )

  pub drain_node_lem :
      (node : ℕ) (entries : List (Key × ℕ)) (heap : Map C)
      → ((a : ℕ) → listed node entries a ≡ true → is_some (heap a) ≡ true)
      → Emptied node entries heap
  unfolding drain_node
  drain_node_lem node [] heap there = (heap, refl, λ a. refl)
  drain_node_lem node ((key, inbox) ∷ entries) heap there =
      elim (Bool-cases (key.addr.node == node)) [
        | inl own ↦ elim (Option-cases (heap inbox)) [
          | inl absent ↦ ground (arith, there inbox)
          | inr (c, here) ↦
              let (c', drained, nothing) =
                drain_lem (suc capacity) c (omega (arith, laws.contents-bounded c)) in
              empties node inbox key entries heap c c' own here drained nothing (
                drain_node_lem node entries (update heap inbox (some c'))
                  (λ a h. ground (arith, there a)))
        ]
        | inr other ↦
            passes node inbox key entries heap other
              (drain_node_lem node entries heap (λ a h. ground (arith, there a)))
      ]
