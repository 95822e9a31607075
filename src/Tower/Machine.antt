-- ===== src/Tower/Machine.antt =====
-- src/tower.rs as a whole: one client, one server and the network between them, which delivers each
-- packet at most once, in any order, and whose send functions return at once.
pub mod Invariant
pub mod Keeping
pub mod Answers
pub mod Calls
pub mod Once
use refault.Prelude.{
  ℕ, suc, ◌≡◌, ◌≤◌, ◌<◌, Bool, true, false, List, [], Option, none, some, Map, update, Result, ok,
}
use refault.Ids.{u64_mod}
use refault.Net.Table.{Addr}
use refault.Tower.{
  ServiceOutput, Reply, ErrorKind, TowerRequest, TowerResponse, Client, make_request, after_send,
  receive_response, receive_error, server_turn, spawns, incoming, finish_call,
}

-- Where the one packet with some id is.
pub data Stage (A B E Fut : Type 0) : Type 0 where
  requested : TowerRequest A → Stage A B E Fut
  working : (id : ℕ) → (client : Addr) → Fut → Stage A B E Fut
  answering : (client : Addr) → TowerResponse B E → Stage A B E Fut

-- `asked` has the request of each call by its sender, of which there are `calls`. `broken` says whether
-- the client ever received an error.
pub record System (A B E S Fut : Type 0) : Type 0 where
  pub client : Client B E
  pub service : S
  pub counter : ℕ
  pub calls : ℕ
  pub asked : Map A
  pub stage : Map (Stage A B E Fut)
  pub broken : Bool

-- `outcome` relates the futures of the service's calls to what they may return.
module _ {A B E S Fut : Type 0} (debug : Bool) (service_call : S → A → Fut × S)
    (outcome : Fut → ServiceOutput B E → Type 0) where
  abbrev pub initial : (remote local_addr : Addr) → S → System A B E S Fut
  initial remote local_addr service = record {
    client = record { remote = remote; local_addr = local_addr; responders = []; sent = [] };
    service = service;
    counter = 0;
    calls = 0;
    asked = λ _. none;
    stage = λ _. none;
    broken = false;
  }

  abbrev pub after_call : System A B E S Fut → A → TowerRequest A → ℕ → System A B E S Fut
  after_call s req request counter = record s {
    client = after_send request.id s.calls none s.client;
    counter = counter;
    calls = suc s.calls;
    asked = update s.asked s.calls (some req);
    stage = update s.stage request.id (some (requested request));
  }

  abbrev pub after_refusal :
      System A B E S Fut → A → TowerRequest A → ℕ → ErrorKind → System A B E S Fut
  after_refusal s req request counter kind = record s {
    client = after_send request.id s.calls (some kind) s.client;
    counter = counter;
    calls = suc s.calls;
    asked = update s.asked s.calls (some req);
  }

  pub data Step (s t : System A B E S Fut) : Type 0 where
    sends :
        (req : A) (request : TowerRequest A) (counter : ℕ)
        → make_request debug s.counter req ≡ ok (request, counter)
        → t ≡ after_call s req request counter
        → Step s t
    refuses :
        (req : A) (request : TowerRequest A) (counter : ℕ) (kind : ErrorKind)
        → make_request debug s.counter req ≡ ok (request, counter)
        → t ≡ after_refusal s req request counter kind
        → Step s t
    serves :
        (id id' : ℕ) (request : TowerRequest A) (client : Addr) (fut : Fut) (service : S)
        → s.stage id ≡ some (requested request)
        → server_turn {B = B} {E = E} service_call
            (incoming request s.client.local_addr)
            none
            s.service
          ≡ (spawns id' client fut, service)
        → t ≡ record s {
          service = service;
          stage = update s.stage id (some (working id' client fut));
        }
        → Step s t
    finishes :
        (id id' : ℕ) (client : Addr) (fut : Fut) (result : ServiceOutput B E)
        → s.stage id ≡ some (working id' client fut)
        → outcome fut result
        → t ≡ record s {
          stage = update s.stage id (some (answering client (finish_call id' result)));
        }
        → Step s t
    receives :
        (id : ℕ) (packet : TowerResponse B E) (client : Client B E)
        → s.stage id ≡ some (answering s.client.local_addr packet)
        → receive_response debug packet s.client.remote s.client ≡ ok client
        → t ≡ record s { client = client; stage = update s.stage id none }
        → Step s t
    loses : (id : ℕ) → t ≡ record s { stage = update s.stage id none } → Step s t
    breaks :
        (kind : ErrorKind)
        → t ≡ record s { client = receive_error kind s.client; broken = true }
        → Step s t
    -- other parts of the program take ids
    counts :
        (counter : ℕ)
        → s.counter ≤ counter
        → counter < u64_mod
        → t ≡ record s { counter = counter }
        → Step s t

  pub data Reach (start : System A B E S Fut) : System A B E S Fut → Type 0 where
    here : Reach start start
    next : {s t : System A B E S Fut} → Reach start s → Step s t → Reach start t
