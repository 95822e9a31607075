-- ===== src/SendBind/Examples.antt =====
-- A value that is bound in the first of two simulations and reaches the second.
use refault.Prelude.{ℕ, ◌≡◌, refl, List, [], ◌∷◌, ok, panic, assert_failed}
use refault.SendBind.{
  sim_bound, unwrap_sim_bound, drop_sim_bound, aborted, anchors, node_bound, unwrap_node_bound,
  drop_node_bound, panicked,
}
use refault.SendBind.Anchors.{sim_bound_lem}

abbrev note : ℕ → List ℕ → List ℕ
note value w = value ∷ w

two_anchors : anchors 2 40 ≡ ok (41 ∷ 42 ∷ [])
unfolding anchors
two_anchors = refl

sim_bound_lem_example :
    (unwrap_sim_bound {T = ℕ} 42 (sim_bound 41 7) ≡ panic assert_failed)
    × (drop_sim_bound note 42 (sim_bound 41 7) [] ≡ aborted)
sim_bound_lem_example = sim_bound_lem note 7 [] 2 40 0 1 two_anchors refl refl

node_bound_elsewhere :
    (unwrap_node_bound {T = ℕ} 2 (node_bound 1 7) ≡ panic assert_failed)
    × (drop_node_bound note 2 (node_bound 1 7) [] ≡ panicked (7 ∷ []))
unfolding unwrap_node_bound node_bound drop_node_bound
node_bound_elsewhere = (refl, refl)
