-- ===== src/Tower/Machine/Calls.antt =====
-- What the calls of a client come to.
use refault.Prelude.{
  ℕ, ◌≡◌, refl, sym, ap, ◌∙◌, subst, Bool, false, Bool-cases, inl, inr, List, [], ◌∷◌, ◌++◌,
  append_assoc, some, Option-cases, ok, panic, unwrap_none, arith, ==_refl,
}
use refault.Net.Table.{Addr}
use refault.Tower.Responders.{lookup, without}
use refault.Tower.{
  ServiceOutput, Reply, right, ErrorKind, TowerResponse, Client, complete, addr_eq, send, send_all,
  map_left, receive_response, receive_error,
}
use refault.Tower.Machine.{answering, System, initial, Reach, here, next}
use refault.Tower.Machine.Invariant.{Given, Answered, Fits, Inv}
use refault.Tower.Machine.Answers.{Step-Inv}

module _ {A B E S Fut : Type 0} (debug : Bool) (service_call : S → A → Fut × S)
    (outcome : Fut → ServiceOutput B E → Type 0) where
  initial-Inv :
      (remote local_addr : Addr) (service : S)
      → Inv debug service_call outcome
          (initial debug service_call outcome remote local_addr service)
  initial-Inv remote local_addr service = record {
    fits = λ id. tt;
    answered = tt;
    fresh = λ id h. (refl, refl);
    known = λ id r e. absurd (cc);
    waiting = tt;
    new = λ r h. refl;
    bounded = omega arith;
  }

  module _ (remote local_addr : Addr) (service : S) where
    pub Reach-Inv :
        {s : System A B E S Fut}
        → Reach debug service_call outcome
            (initial debug service_call outcome remote local_addr service)
            s
        → Inv debug service_call outcome s
    Reach-Inv here = initial-Inv remote local_addr service
    Reach-Inv (next {s} {t} r st) = Step-Inv debug service_call outcome s t (Reach-Inv r) st

    -- In any run of a client and a server, with packets lost and reordered and with errors from the
    -- network, each reply that a call got is an error of the network, or what the service returned from a call
    -- with the request of this very call.
    pub Reach-Answered :
        {s : System A B E S Fut}
        → Reach debug service_call outcome
            (initial debug service_call outcome remote local_addr service)
            s
        → Answered debug service_call outcome s.asked s.client.sent
    Reach-Answered r = (Reach-Inv r).answered

    -- With send functions that return at once, so that a call is in the map of responders before any
    -- response to it: while the client received no error from the network, a response that arrives from
    -- the server is accepted in either build profile: it completes one waiting call, with the result that the service
    -- returned for the request of this call.
    pub receive_response-completes :
        {s : System A B E S Fut} (id : ℕ) (packet : TowerResponse B E) (client : Addr)
        → Reach debug service_call outcome
            (initial debug service_call outcome remote local_addr service)
            s
        → s.broken ≡ false
        → s.stage id ≡ some (answering client packet)
        → (responder : ℕ) × (req : A) × (s.asked responder ≡ some req)
          × Given debug service_call outcome req packet.result
          × (receive_response debug packet s.client.remote s.client
              ≡ ok (record s.client {
                responders = without s.client.responders packet.id;
                sent = (responder, map_left packet.result) ∷ s.client.sent;
              }))
    unfolding receive_response complete addr_eq send
    receive_response-completes {s} id packet client r whole at =
        let v = Reach-Inv r in
        let (req, (is_id, is_client, given), known, waits) =
          subst (λ o. Fits debug service_call outcome s id o) at (v.fits id) in
        elim (Option-cases (lookup s.client.responders id)) [
          | inl nobody ↦ absurd (ground (arith, waits whole))
          | inr (responder, found) ↦
              let under_id : lookup s.client.responders packet.id ≡ some responder =
                rw (is_id) found in
              elim (Bool-cases debug) [
                | inl checked ↦ (
                  responder,
                  req,
                  known responder found,
                  given,
                  rw
                      (
                        receive_response,
                        complete,
                        addr_eq,
                        checked,
                        ==_refl s.client.remote.node,
                        ==_refl s.client.remote.port,
                        under_id,
                      )
                      refl,
                )
                | inr unchecked ↦ (
                  responder,
                  req,
                  known responder found,
                  given,
                  rw (receive_response, complete, unchecked, under_id) refl,
                )
              ]
        ]

module _ {B E : Type 0} (kind : ErrorKind) where
  -- An error for each waiting call, the last one first.
  abbrev pub errors : List (ℕ × ℕ) → List (ℕ × Reply B E)
  errors [] = []
  errors ((id, responder) ∷ rest) = errors rest ++ (responder, right kind) ∷ []

  send_all-errors :
      (responders : List (ℕ × ℕ)) (c : Client B E)
      → send_all kind responders c ≡ record c { sent = errors responders ++ c.sent }
  unfolding send_all send
  send_all-errors [] c = refl
  send_all-errors ((id, r) ∷ rest) c =
      send_all-errors rest (send r (right kind) c)
      ∙ ap (λ (sent : List (ℕ × Reply B E)). record c { sent = sent })
          (sym (append_assoc (errors rest) ((r, right kind) ∷ []) c.sent))

  -- An error from the network goes to every waiting call, once, and leaves none waiting. A response
  -- that arrives next, before another request is sent, panics in either build profile.
  pub receive_error-then_panics :
      (c : Client B E)
      → (receive_error kind c ≡ record c { responders = []; sent = errors c.responders ++ c.sent })
        × ((debug : Bool) (packet : TowerResponse B E)
            → receive_response debug packet c.remote (receive_error kind c) ≡ panic unwrap_none)
  unfolding receive_error receive_response complete addr_eq
  receive_error-then_panics c =
      let cleared : Client B E = record c { responders = [] } in
      let all = send_all-errors c.responders cleared in
      (
        all,
        λ debug packet. elim (Bool-cases debug) [
          | inl checked ↦
              rw
                (
                  receive_response,
                  all,
                  addr_eq,
                  checked,
                  ==_refl c.remote.node,
                  ==_refl c.remote.port,
                  complete,
                )
                refl
          | inr unchecked ↦ rw (receive_response, all, unchecked, complete) refl
        ],
      )
