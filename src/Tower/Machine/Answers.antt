-- ===== src/Tower/Machine/Answers.antt =====
-- Every step of a client and its server keeps the invariant.
use refault.Prelude.{
  ℕ, ◌≡◌, refl, sym, subst, Bool, true, Bool-cases, inl, inr, List, [], ◌∷◌, Option, none, some,
  Option-cases, Map, update, ok, arith, ◌==◌, ==_refl,
}
use refault.Net.Table.{Addr}
use refault.Tower.Responders.{lookup, without, lookup-without}
use refault.Tower.{
  ServiceOutput, success, failure, right, ErrorKind, TowerRequest, TowerResponse, Client, send,
  send_all, complete, map_left, receive_response, receive_error, server_turn, spawns, incoming,
  finish_call,
}
use refault.Tower.Machine.{
  Stage, requested, working, answering, System, Step, sends, refuses, serves, finishes, receives,
  loses, breaks, counts,
}
use refault.Tower.Machine.Invariant.{Given, Answer, Answered, Waiting, Fits, Inv}
use refault.Tower.Machine.Keeping.{
  Waiting-without, Fits-keeps, sends-Inv, refuses-Inv, send_all-same,
}

module _ {A B E S Fut : Type 0} (debug : Bool) (service_call : S → A → Fut × S)
    (outcome : Fut → ServiceOutput B E → Type 0) where
  abbrev Good : System A B E S Fut → Type 0
  Good s = Inv debug service_call outcome s

  abbrev FitsIn : System A B E S Fut → ℕ → Option (Stage A B E Fut) → Type 0
  FitsIn s id stage = Fits debug service_call outcome s id stage

  module _ (s : System A B E S Fut) (v : Good s) where
    stage-Inv :
        (id : ℕ) (stage : Option (Stage A B E Fut)) (service : S)
        → (s.stage id ≡ none → stage ≡ none)
        → FitsIn s id stage
        → Good (record s { service = service; stage = update s.stage id stage })
    stage-Inv id stage service kept fit = record {
      fits = λ j. elim (Bool-cases (id == j)) [
        | inl this ↦
            let same : id ≡ j = ground arith in
            subst (λ (x : ℕ). FitsIn s x (update s.stage id stage x)) same (rw (==_refl id) fit)
        | inr apart ↦ rw (apart) (v.fits j)
      ];
      answered = v.answered;
      fresh = λ j h. ground (arith, v.fresh j);
      known = v.known;
      waiting = v.waiting;
      new = v.new;
      bounded = v.bounded;
    }

    serves-Inv :
        (id id' : ℕ) (request : TowerRequest A) (client : Addr) (fut : Fut) (service : S)
        → s.stage id ≡ some (requested request)
        → server_turn {B = B} {E = E} service_call
            (incoming request s.client.local_addr)
            none
            s.service
          ≡ (spawns id' client fut, service)
        → Good (record s {
          service = service;
          stage = update s.stage id (some (working id' client fut));
        })
    unfolding server_turn
    serves-Inv id id' request client fut service at turn =
        let (req, (is_id, is_req), known, waits) = subst (FitsIn s id) at (v.fits id) in
        stage-Inv id (some (working id' client fut)) service (λ e. absurd (cc))
          (req, (cc, cc, (s.service, service, cc)), known, waits)

    finishes-Inv :
        (id id' : ℕ) (client : Addr) (fut : Fut) (result : ServiceOutput B E)
        → s.stage id ≡ some (working id' client fut)
        → outcome fut result
        → Good (record s {
          stage = update s.stage id (some (answering client (finish_call id' result)));
        })
    unfolding finish_call
    finishes-Inv id id' client fut result at yields =
        let (req, (is_id, is_client, started), known, waits) = subst (FitsIn s id) at (v.fits id) in
        stage-Inv id (some (answering client (finish_call id' result))) s.service (λ e. absurd (cc))
          (req, (is_id, is_client, (fut, started, yields)), known, waits)

    -- A response completes the call that waits under its id.
    module _ (id : ℕ) (packet : TowerResponse B E) (client : Addr)
        (at : s.stage id ≡ some (answering client packet)) where
      pub receives-parts :
          (c' : Client B E)
          → receive_response debug packet s.client.remote s.client ≡ ok c'
          → (r : ℕ) × (lookup s.client.responders packet.id ≡ some r)
            × (c' ≡ record s.client {
              responders = without s.client.responders packet.id;
              sent = (r, map_left packet.result) ∷ s.client.sent;
            })
      unfolding receive_response complete send
      receives-parts c' e = elim (Option-cases (lookup s.client.responders packet.id)) [
        | inl nobody ↦ absurd (ground arith)
        | inr (r, found) ↦ (r, found, ground arith)
      ]

    Answer-map_left :
        (req : A) (result : ServiceOutput B E)
        → Given debug service_call outcome req result
        → Answer debug service_call outcome req (map_left result)
    unfolding map_left
    Answer-map_left req (success b) given = given
    Answer-map_left req (failure e) given = given

    receives-Inv :
        (id : ℕ) (packet : TowerResponse B E) (client : Addr) (r : ℕ)
        → s.stage id ≡ some (answering client packet)
        → lookup s.client.responders packet.id ≡ some r
        → Good (record s {
          client = record s.client {
            responders = without s.client.responders packet.id;
            sent = (r, map_left packet.result) ∷ s.client.sent;
          };
          stage = update s.stage id none;
        })
    receives-Inv id packet client r at found =
        let (req, (is_id, is_client, given), known, waits) = subst (FitsIn s id) at (v.fits id) in
        record {
          fits = λ j. elim (Bool-cases (id == j)) [
            | inl this ↦ rw (this) tt
            | inr apart ↦ rw (apart) (
                Fits-keeps debug service_call outcome s
                  (record s {
                    client = record s.client {
                      responders = without s.client.responders packet.id;
                      sent = (r, map_left packet.result) ∷ s.client.sent;
                    };
                    stage = update s.stage id none;
                  })
                  j (s.stage j) refl
                  (λ q e. (ground (arith, lookup-without s.client.responders packet.id j), refl))
                  (λ b. (b, ground (arith, lookup-without s.client.responders packet.id j)))
                  (v.fits j))
          ];
          answered =
              ((req, ground (arith, known r), Answer-map_left req packet.result given), v.answered);
          fresh = λ j h. ground (arith, v.fresh j, lookup-without s.client.responders packet.id j);
          known =
              λ j q e. ground (arith, v.known j q, lookup-without s.client.responders packet.id j);
          waiting = Waiting-without s.asked packet.id s.client.responders v.waiting;
          new = v.new;
          bounded = v.bounded;
        }

  send_all-Answered :
      (kind : ErrorKind) (responders : List (ℕ × ℕ)) (asked : Map A) (c : Client B E)
      → Waiting asked responders
      → Answered debug service_call outcome asked c.sent
      → Answered debug service_call outcome asked (send_all kind responders c).sent
  unfolding send_all send
  send_all-Answered kind [] asked c all sent = sent
  send_all-Answered kind ((i, r) ∷ responders) asked c ((req, e), all) sent =
      send_all-Answered kind responders asked (send r (right kind) c) all ((req, e, tt), sent)

  breaks-Inv :
      (s : System A B E S Fut) (kind : ErrorKind)
      → Good s
      → Good (record s { client = receive_error kind s.client; broken = true })
  unfolding receive_error
  breaks-Inv s kind v =
      let cleared : Client B E = record s.client { responders = [] } in
      let (same, addr, remote) = send_all-same kind s.client.responders cleared in
      record {
        fits = λ j.
            Fits-keeps debug service_call outcome s
              (record s { client = receive_error kind s.client; broken = true }) j (s.stage j)
              (sym addr) (λ r e. absurd (ground arith)) (λ b. absurd (cc)) (v.fits j);
        answered = send_all-Answered kind s.client.responders s.asked cleared v.waiting v.answered;
        fresh = λ j h. ground (arith, v.fresh j);
        known = λ j q e. ground arith;
        waiting = subst (Waiting s.asked) (sym same) tt;
        new = v.new;
        bounded = v.bounded;
      }

  pub Step-Inv : (s t : System A B E S Fut) → Good s → Step debug service_call outcome s t → Good t
  Step-Inv s t v (sends req request counter made same) =
      subst Good (sym same) (sends-Inv debug service_call outcome s v req request counter made)
  Step-Inv s t v (refuses req request counter kind made same) =
      subst Good (sym same)
        (refuses-Inv debug service_call outcome s v req request counter made kind)
  Step-Inv s t v (serves id id' request client fut service at turn same) =
      subst Good (sym same) (serves-Inv s v id id' request client fut service at turn)
  Step-Inv s t v (finishes id id' client fut result at yields same) =
      subst Good (sym same) (finishes-Inv s v id id' client fut result at yields)
  Step-Inv s t v (receives id packet client at e same) =
      let (r, found, after) = receives-parts s v id packet s.client.local_addr at client e in
      subst Good (rw (same, after) refl) (receives-Inv s v id packet s.client.local_addr r at found)
  Step-Inv s t v (loses id same) =
      subst Good (sym same) (stage-Inv s v id none s.service (λ e. refl) tt)
  Step-Inv s t v (breaks kind same) = subst Good (sym same) (breaks-Inv s kind v)
  Step-Inv s t v (counts counter more less same) = subst Good (sym same) (record {
    fits = λ id. v.fits id;
    answered = v.answered;
    fresh = λ id h. v.fresh id (omega arith);
    known = v.known;
    waiting = v.waiting;
    new = v.new;
    bounded = less;
  })
