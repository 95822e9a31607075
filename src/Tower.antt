-- ===== src/Tower.antt =====
-- src/tower.rs: calls over the network. A client gives each request an id and keeps the sender of the
-- call's oneshot channel under it; the response with that id goes to this sender.
mod Examples
pub mod Responders
pub mod Machine
use refault.Prelude.{
  ℕ, Bool, true, false, not, ◌||◌, List, [], ◌∷◌, ◌++◌, map, Option, none, some, is_some, Result,
  ok, panic, unwrap_none, assert_failed, assert, ◌>>=◌, ◌>>◌, ◌==◌, ◌&&◌, if◌then◌else◌,
}
use refault.Ids.{new_id}
use refault.Net.Table.{Addr}
use refault.Net.Channel.{LocalChannel}
use refault.Net.{Message, Inboxes, Socket, open_socket}
use Responders.{lookup, without, insert_responder}

-- What a service returns: `Result<B, E>`.
pub data ServiceOutput (B E : Type 0) : Type 0 where
  success : B → ServiceOutput B E
  failure : E → ServiceOutput B E

-- `std::io::ErrorKind`
pub data ErrorKind : Type 0 where
  connection_reset : ErrorKind
  other : (code : ℕ) → ErrorKind

-- `TowerResult<B, E>`; an error of I/O is its kind.
pub data Reply (B E : Type 0) : Type 0 where
  response : B → Reply B E
  left : E → Reply B E
  right : (kind : ErrorKind) → Reply B E

pub record TowerRequest (A : Type 0) : Type 0 where
  pub req : A
  pub id : ℕ

pub record TowerResponse (B E : Type 0) : Type 0 where
  pub result : ServiceOutput B E
  pub id : ℕ

-- `result.map_err(Left)`
unfoldable pub map_left : {B E : Type 0} → ServiceOutput B E → Reply B E
map_left (success b) = response b
map_left (failure e) = left e

-- The tasks of a client and what they share. `responders` lists the map in the order in which it
-- yields its values, `sent` what was sent to the senders, the last one first.
pub record Client (B E : Type 0) : Type 0 where
  pub remote : Addr
  pub local_addr : Addr
  pub responders : List (ℕ × ℕ)
  pub sent : List (ℕ × Reply B E)

-- A turn of the send task up to the future of `Net::send`: the request with its new id, and the
-- counter of ids.
unfoldable pub make_request : {A : Type 0} → Bool → (counter : ℕ) → A → Result (TowerRequest A × ℕ)
unfolding new_id
make_request debug counter req = do
  (id, counter') ← new_id debug counter
  ok (record { req = req; id = id }, counter')

addr_eq : Addr → Addr → Bool
addr_eq a b = (a.node == b.node) && (a.port == b.port)

module _ {B E : Type 0} where
  unfoldable pub send : ℕ → Reply B E → Client B E → Client B E
  send responder reply client = record client { sent = (responder, reply) ∷ client.sent }

  -- The rest of the turn, with what that future returns: none is `Ok(())`. Where that future is ready at
  -- once, as that of a send function's left output is, the turn goes on to here without a suspension; with
  -- any other future, the client may receive responses before.
  unfoldable pub after_send : (id responder : ℕ) → Option ErrorKind → Client B E → Client B E
  unfolding send
  after_send id responder none client = record client {
    responders = insert_responder client.responders id responder;
  }
  after_send id responder (some kind) client = send responder (right kind) client

  complete : Option ℕ → TowerResponse B E → Client B E → Result (Client B E)
  unfolding map_left send
  complete none packet client = panic unwrap_none
  complete (some responder) packet client = ok (
      send responder (map_left packet.result)
        (record client { responders = without client.responders packet.id }))

  -- A turn of the receive task on a response.
  unfoldable pub receive_response :
      Bool → TowerResponse B E → Addr → Client B E → Result (Client B E)
  unfolding complete addr_eq
  receive_response debug packet addr client = do
    assert (not debug || addr_eq addr client.remote) assert_failed
    complete (lookup client.responders packet.id) packet client

  unfoldable pub send_all : (kind : ErrorKind) → List (ℕ × ℕ) → Client B E → Client B E
  unfolding send
  send_all kind [] client = client
  send_all kind ((id, responder) ∷ responders) client =
      send_all kind responders (send responder (right kind) client)

  -- A turn of the receive task on an error.
  unfoldable pub receive_error : (kind : ErrorKind) → Client B E → Client B E
  unfolding send_all
  receive_error kind client = send_all kind client.responders (record client { responders = [] })

  -- The future of `Client::call`: whether the request got to the send task, and what its oneshot channel
  -- yields, none if the sender was dropped.
  unfoldable pub call_reply : (accepted : Bool) → Option (Reply B E) → Reply B E
  call_reply false reply = right connection_reset
  call_reply true none = right connection_reset
  call_reply true (some reply) = reply

-- What a turn of `run_server` comes to: the end of the server, or a new task for a call.
pub data ServerTurn (Fut B E : Type 0) : Type 0 where
  stops : Reply B E → ServerTurn Fut B E
  spawns : (id : ℕ) → (client : Addr) → Fut → ServerTurn Fut B E

-- What `receive` gives to the server.
pub data Incoming (A : Type 0) : Type 0 where
  incoming : TowerRequest A → Addr → Incoming A
  broken : (kind : ErrorKind) → Incoming A

module _ {A B E S Fut : Type 0} (service_call : S → A → Fut × S) where
  -- `ready` is what `poll_ready` ends with: none, or an error of the service.
  unfoldable pub server_turn : Incoming A → (ready : Option E) → S → ServerTurn Fut B E × S
  server_turn (broken kind) ready service = (stops (right kind), service)
  server_turn (incoming request client) (some e) service = (stops (left e), service)
  server_turn (incoming request client) none service =
      let (fut, service') = service_call service request.req in
      (spawns request.id client fut, service')

-- The end of the task of a call: the response that it sends to the client.
unfoldable pub finish_call : {B E : Type 0} → (id : ℕ) → ServiceOutput B E → TowerResponse B E
finish_call id result = record { result = result; id = id }

-- `Socket::open(..).unwrap()`
unwrap_opened : {C P : Type 0} → Option Socket × Inboxes C P → Result (Socket × Inboxes C P)
unwrap_opened (none, net) = panic unwrap_none
unwrap_opened (some socket, net) = ok (socket, net)

-- `Client::new`: the client, with its socket at a port that is a new id.
unfoldable pub new_client :
    {C P B E : Type 0}
    → LocalChannel C (Message P)
    → (debug : Bool) (counter current : ℕ) → (remote : Addr) → (ty : ℕ) → Inboxes C P
    → Result (Client B E × Socket × Inboxes C P × ℕ)
unfolding new_id open_socket unwrap_opened
new_client ch debug counter current remote ty net = do
  (port, counter') ← new_id debug counter
  (socket, net') ← unwrap_opened (open_socket ch current port ty net)
  ok (
    record { remote = remote; local_addr = socket.local_addr; responders = []; sent = [] },
    socket,
    net',
    counter',
  )
