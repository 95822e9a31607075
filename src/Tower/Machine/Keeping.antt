-- ===== src/Tower/Machine/Keeping.antt =====
-- The calls of a client, and lemmas on what other steps keep.
use refault.Prelude.{
  ℕ, suc, ◌≡◌, ◌<◌, refl, subst, Bool, false, Bool-cases, inl, inr, List, [], ◌∷◌, Option, none,
  some, Map, update, ok, parts_of_ok, arith, ◌==◌, ==_refl,
}
use refault.Ids.{u64_mod, new_id}
use refault.Ids.Unique.{new_id-parts}
use refault.Net.Table.{Addr}
use refault.Tower.Responders.{lookup, without, lookup-insert}
use refault.Tower.{
  ServiceOutput, Reply, right, ErrorKind, TowerRequest, Client, make_request, after_send, send,
  send_all,
}
use refault.Tower.Machine.{Stage, System, after_call, after_refusal}
use refault.Tower.Machine.Invariant.{Answered, Waiting, Serves, Fits, Inv}

module _ {A : Type 0} (debug : Bool) (counter : ℕ) (req : A) (request : TowerRequest A)
    (counter' : ℕ) where
  pub make_request-parts :
      counter < u64_mod
      → make_request debug counter req ≡ ok (request, counter')
      → (request.req ≡ req)
        × (request.id ≡ suc counter)
        × (counter' ≡ suc counter)
        × (suc counter < u64_mod)
  unfolding make_request
  make_request-parts small e =
      let ((id, after), made, rest) = parts_of_ok (new_id debug counter) _ e in
      let (is, after_is, small') = new_id-parts debug counter id after small made in ground (arith)

module _ {A : Type 0} (asked : Map A) where
  pub Waiting-without :
      (id : ℕ) (responders : List (ℕ × ℕ))
      → Waiting asked responders
      → Waiting asked (without responders id)
  Waiting-without id [] all = tt
  Waiting-without id ((i, r) ∷ responders) (first, all) = elim (Bool-cases (i == id)) [
    | inl this ↦ rw (this) (Waiting-without id responders all)
    | inr apart ↦ rw (apart) (first, Waiting-without id responders all)
  ]

  pub Waiting-keeps :
      (asked' : Map A) (responders : List (ℕ × ℕ))
      → ((r : ℕ) (req : A) → asked r ≡ some req → asked' r ≡ some req)
      → Waiting asked responders
      → Waiting asked' responders
  Waiting-keeps asked' [] keeps all = tt
  Waiting-keeps asked' ((i, r) ∷ responders) keeps ((req, e), all) =
      ((req, keeps r req e), Waiting-keeps asked' responders keeps all)

module _ {B E : Type 0} where
  pub send_all-same :
      (kind : ErrorKind) (responders : List (ℕ × ℕ)) (c : Client B E)
      → ((send_all kind responders c).responders ≡ c.responders)
        × ((send_all kind responders c).local_addr ≡ c.local_addr)
        × ((send_all kind responders c).remote ≡ c.remote)
  unfolding send_all send
  send_all-same kind [] c = (refl, refl, refl)
  send_all-same kind ((i, r) ∷ responders) c = send_all-same kind responders (send r (right kind) c)

module _ {A B E S Fut : Type 0} (debug : Bool) (service_call : S → A → Fut × S)
    (outcome : Fut → ServiceOutput B E → Type 0) where
  abbrev Good : System A B E S Fut → Type 0
  Good s = Inv debug service_call outcome s

  abbrev FitsIn : System A B E S Fut → ℕ → Option (Stage A B E Fut) → Type 0
  FitsIn s id stage = Fits debug service_call outcome s id stage

  -- A packet goes on serving its call as long as nothing else is entered under its id.
  pub Fits-keeps :
      (s t : System A B E S Fut) (id : ℕ) (stage : Option (Stage A B E Fut))
      → s.client.local_addr ≡ t.client.local_addr
      → ((r : ℕ)
          → lookup t.client.responders id ≡ some r
          → (lookup s.client.responders id ≡ some r) × (t.asked r ≡ s.asked r))
      → (t.broken ≡ false
          → (s.broken ≡ false) × (lookup t.client.responders id ≡ lookup s.client.responders id))
      → FitsIn s id stage
      → FitsIn t id stage
  Fits-keeps s t id none addr asked whole f = tt
  Fits-keeps s t id (some stage) addr asked whole (req, serving, known, waits) = (
    req,
    subst (λ (x : Addr). Serves debug service_call outcome req x id stage) addr serving,
    λ r e. let (e', same) = asked r e in ground (arith, known r e'),
    λ b. let (b', same) = whole b in ground (arith, waits b'),
  )

  pub Answered-keeps :
      (asked asked' : Map A) (sent : List (ℕ × Reply B E))
      → ((r : ℕ) (req : A) → asked r ≡ some req → asked' r ≡ some req)
      → Answered debug service_call outcome asked sent
      → Answered debug service_call outcome asked' sent
  Answered-keeps asked asked' [] keeps all = tt
  Answered-keeps asked asked' ((r, reply) ∷ sent) keeps ((req, e, answer), all) =
      ((req, keeps r req e, answer), Answered-keeps asked asked' sent keeps all)

  module _ (s : System A B E S Fut) (v : Good s) where
    module _ (req : A) (request : TowerRequest A) (counter : ℕ)
        (made : make_request debug s.counter req ≡ ok (request, counter)) where
      pub sends-Inv : Good (after_call debug service_call outcome s req request counter)
      unfolding after_send
      sends-Inv =
          let (is_req, is_id, is_counter, small) =
            make_request-parts debug s.counter req request counter v.bounded made in
          record {
            fits = λ id. elim (Bool-cases (request.id == id)) [
              | inl this ↦ rw (this) (
                req,
                (ground arith, is_req),
                λ r e. ground (
                  arith,
                  lookup-insert s.client.responders request.id s.calls id,
                  ==_refl s.calls,
                ),
                λ b. ground (arith, lookup-insert s.client.responders request.id s.calls id),
              )
              | inr apart ↦ rw (apart) (
                  Fits-keeps s (after_call debug service_call outcome s req request counter) id
                    (s.stage id) refl
                    (λ r e.
                      let found : lookup s.client.responders id ≡ some r =
                        ground (arith, lookup-insert s.client.responders request.id s.calls id) in
                      (found, ground (arith, v.known id r)))
                    (λ b.
                      (b, ground (arith, lookup-insert s.client.responders request.id s.calls id)))
                    (v.fits id))
            ];
            answered =
                Answered-keeps s.asked (update s.asked s.calls (some req)) s.client.sent
                  (λ r q e. ground (arith, v.new r)) v.answered;
            fresh = λ id h.
                ground (arith, v.fresh id, lookup-insert s.client.responders request.id s.calls id);
            known = λ id r e.
                ground
                  (arith, v.known id r, lookup-insert s.client.responders request.id s.calls id);
            waiting = (
              (req, ground (arith, ==_refl s.calls)),
              Waiting-without (update s.asked s.calls (some req)) request.id s.client.responders (
                  Waiting-keeps s.asked (update s.asked s.calls (some req)) s.client.responders
                    (λ r q e. ground (arith, v.new r)) v.waiting),
            );
            new = λ r h. ground (arith, v.new r);
            bounded = ground arith;
          }

      pub refuses-Inv :
          (kind : ErrorKind)
          → Good (after_refusal debug service_call outcome s req request counter kind)
      unfolding after_send send
      refuses-Inv kind =
          let (is_req, is_id, is_counter, small) =
            make_request-parts debug s.counter req request counter v.bounded made in
          record {
            fits = λ id.
                Fits-keeps s (after_refusal debug service_call outcome s req request counter kind)
                  id (s.stage id) refl (λ r e. (e, ground (arith, v.known id r))) (λ b. (b, refl))
                  (v.fits id);
            answered = (
              (req, ground (arith, ==_refl s.calls), tt),
              Answered-keeps s.asked (update s.asked s.calls (some req)) s.client.sent
                  (λ r q e. ground (arith, v.new r)) v.answered,
            );
            fresh = λ id h. ground (arith, v.fresh id);
            known = λ id r e. ground (arith, v.known id r);
            waiting =
                Waiting-keeps s.asked (update s.asked s.calls (some req)) s.client.responders
                  (λ r q e. ground (arith, v.new r)) v.waiting;
            new = λ r h. ground (arith, v.new r);
            bounded = ground arith;
          }
      -- The packet of an id moves on.
