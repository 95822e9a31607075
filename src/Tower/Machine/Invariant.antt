-- ===== src/Tower/Machine/Invariant.antt =====
-- The invariant of a client with its server.
use refault.Prelude.{
  ℕ, ◌≡◌, ◌≤◌, ◌<◌, Bool, true, false, List, [], ◌∷◌, Option, none, some, is_some, Map,
}
use refault.Ids.{u64_mod}
use refault.Net.Table.{Addr}
use refault.Tower.Responders.{lookup}
use refault.Tower.{ServiceOutput, success, failure, Reply, response, left, right}
use refault.Tower.Machine.{Stage, requested, working, answering, System}

-- Each sender in the map is the one of a call.
abbrev pub Waiting : {A : Type 0} → Map A → List (ℕ × ℕ) → Type 0
Waiting asked [] = Unit
Waiting {A} asked ((id, r) ∷ responders) =
    ((req : A) × (asked r ≡ some req)) × Waiting asked responders

module _ {A B E S Fut : Type 0} (debug : Bool) (service_call : S → A → Fut × S)
    (outcome : Fut → ServiceOutput B E → Type 0) where
  -- A call of the service with the request may give the future, or the result.
  abbrev pub Started : A → Fut → Type 0
  Started req fut = (before : S) × (after : S) × (service_call before req ≡ (fut, after))

  abbrev pub Given : A → ServiceOutput B E → Type 0
  Given req result = (fut : Fut) × Started req fut × outcome fut result

  -- A reply that answers a request: what the service gave for it, or an error of the network.
  abbrev pub Answer : A → Reply B E → Type 0
  Answer req (response b) = Given req (success b)
  Answer req (left e) = Given req (failure e)
  Answer req (right kind) = Unit

  abbrev pub Answered : Map A → List (ℕ × Reply B E) → Type 0
  Answered asked [] = Unit
  Answered asked ((r, reply) ∷ sent) =
      ((req : A) × (asked r ≡ some req) × Answer req reply) × Answered asked sent

  abbrev pub Serves : A → Addr → ℕ → Stage A B E Fut → Type 0
  Serves req local_addr id (requested request) = (request.id ≡ id) × (request.req ≡ req)
  Serves req local_addr id (working id' client fut) =
      (id' ≡ id) × (client ≡ local_addr) × Started req fut
  Serves req local_addr id (answering client packet) =
      (packet.id ≡ id) × (client ≡ local_addr) × Given req packet.result

  -- The packet of an id serves the call that waits under it.
  abbrev pub Fits : System A B E S Fut → ℕ → Option (Stage A B E Fut) → Type 0
  Fits s id none = Unit
  Fits s id (some stage) =
      (req : A) × (Serves req s.client.local_addr id stage)
      × ((r : ℕ) → lookup s.client.responders id ≡ some r → s.asked r ≡ some req)
      × (s.broken ≡ false → is_some (lookup s.client.responders id) ≡ true)

  pub record Inv (s : System A B E S Fut) : Type 0 where
    pub fits : (id : ℕ) → Fits s id (s.stage id)
    pub answered : Answered s.asked s.client.sent
    pub fresh :
        (id : ℕ) → s.counter < id → (s.stage id ≡ none) × (lookup s.client.responders id ≡ none)
    pub known : (id r : ℕ) → lookup s.client.responders id ≡ some r → r < s.calls
    pub waiting : Waiting s.asked s.client.responders
    pub new : (r : ℕ) → s.calls ≤ r → s.asked r ≡ none
    pub bounded : s.counter < u64_mod
