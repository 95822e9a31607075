-- ===== src/SendBind/Anchors.antt =====
-- Bound values in another simulation than their own.
use refault.Prelude.{
  ℕ, zero, suc, ◌+◌, ◌≡◌, List, ◌∷◌, some, ok, panic, assert_failed, arith, parts_of_ok, get_elem?,
  ◌==◌, if◌then◌else◌, ltb, Bool-cases, inl, inr, ◌^◌,
}
use refault.SendBind.{
  sim_bound, unwrap_sim_bound, drop_sim_bound, returned, aborted, new_anchor, anchors,
}

new_anchor_lem :
    (next id next' : ℕ) → new_anchor next ≡ ok (id, next') → (id ≡ suc next) × (next' ≡ suc next)
unfolding new_anchor
new_anchor_lem next id next' e = elim (Bool-cases (ltb (next + 1) (2 ^ 64))) [
  | inl fits ↦ ground arith
  | inr full ↦ ground arith
]

head_or_tail :
    (n next id next' : ℕ) (rest : List ℕ) (i : ℕ) {ids : List ℕ} {a : ℕ}
    → new_anchor next ≡ ok (id, next')
    → ok (id ∷ rest) ≡ ok ids
    → ((j b : ℕ) → get_elem? rest j ≡ some b → b ≡ suc (next' + j))
    → get_elem? ids i ≡ some a
    → a ≡ suc (next + i)
head_or_tail n next id next' rest zero first all tail at =
    let (head, step) = new_anchor_lem next id next' first in ground arith
head_or_tail n next id next' rest (suc j) {ids} {a} first all tail at =
    let (head, step) = new_anchor_lem next id next' first in ground (arith, tail j a)

-- The anchor at each position.
anchor_at :
    (n next : ℕ) {ids : List ℕ} (i : ℕ) {a : ℕ}
    → anchors n next ≡ ok ids
    → get_elem? ids i ≡ some a
    → a ≡ suc (next + i)
unfolding anchors new_anchor
anchor_at zero next i made at = ground arith
anchor_at (suc n) next {ids} i made at =
    let ((id, next'), first, later) = parts_of_ok (new_anchor next) _ made in
    let (rest, others, all) = parts_of_ok (anchors n next') _ later in
    head_or_tail n next id next' rest i first all (λ j b. anchor_at n next' j others) at

-- A value that was bound in the i-th of any number of simulations, whose anchors the process made
-- one after another, can be unwrapped in the j-th if and only if that is the same one; elsewhere the
-- assertion fails. Its destructor drops the value there, and aborts the process elsewhere.
pub sim_bound_lem :
    {T W : Type 0} (drop_inner : T → W → W) (value : T) (w : W) (n next : ℕ) {ids : List ℕ}
    (i j : ℕ) {a b : ℕ}
    → anchors n next ≡ ok ids
    → get_elem? ids i ≡ some a
    → get_elem? ids j ≡ some b
    → (unwrap_sim_bound b (sim_bound a value) ≡ (if i == j then ok value else panic assert_failed))
      × (drop_sim_bound drop_inner b (sim_bound a value) w
          ≡ (if i == j then returned (drop_inner value w) else aborted))
unfolding unwrap_sim_bound drop_sim_bound sim_bound
sim_bound_lem drop_inner value w n next i j made at_i at_j =
    let first = anchor_at n next i made at_i in
    let second = anchor_at n next j made at_j in (ground arith, ground arith)
