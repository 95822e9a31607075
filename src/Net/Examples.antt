-- ===== src/Net/Examples.antt =====
-- A run of the network: node 1 opens a socket, receives a packet, and starts again.
use refault.Prelude.{
  ℕ, ◌≤◌, ◌≡◌, refl, Bool, true, false, ◌↔◌, ltb, List, [], ◌∷◌, ◌++◌, length, length-append,
  Option, none, some, update, Result, Returns, ok, panic, arith, ◌==◌, if◌then◌else◌,
}
use refault.Net.Channel.{LocalChannel, ChannelLaws}
use refault.Net.Table.{Addr, key_at}
use refault.Net.{
  Inboxes, Message, arrives, fails, Packet, Socket, key_of, new_packet, open_socket, drop_socket,
  enqueue, enqueue_packet, deliver, put_in, receive, start_net_node, service_level, new_net,
}
use refault.Net.Machine.{
  Machine, Step, Reach, start, next, opens, sends, delivers, initial, without_delivery,
}
use refault.Net.Machine.Contract.{
  Reach-Returns, open_socket-refuses, receive-Answers, start_net_node-empties,
}
use refault.Net.Machine.Moving.{Answers}
use refault.Net.Machine.Refinement.{Does, Step-Does}
use refault.Net.Draining.{Drained}

-- A list of at most 8 messages is such a channel.
record Queue (M : Type 0) : Type 0 where
  messages : List M
  bounded : length messages ≤ 8

empty_fits : 0 ≤ 8
empty_fits = omega arith

module _ {M : Type 0} where
  room_for_one :
      (q : Queue M) (m : M) → ltb (length q.messages) 8 ≡ true → length (q.messages ++ m ∷ []) ≤ 8
  room_for_one q m room = ground (arith, length-append q.messages (m ∷ []))

  abbrev push_if :
      (q : Queue M) (m : M) (room : Bool) → ltb (length q.messages) 8 ≡ room → Option (Queue M)
  push_if q m true room =
      some (record { messages = q.messages ++ m ∷ []; bounded = room_for_one q m room })
  push_if q m false no_room = none

  push_if-sent :
      (q : Queue M) (m : M) (room : Bool) (e : ltb (length q.messages) 8 ≡ room) (q' : Queue M)
      → push_if q m room e ≡ some q'
      → q'.messages ≡ q.messages ++ m ∷ []
  push_if-sent q m true room q' e = ground arith
  push_if-sent q m false no_room q' e = absurd (cc)

  push_if-full :
      (q : Queue M) (m : M) (room : Bool) (e : ltb (length q.messages) 8 ≡ room)
      → push_if q m room e ≡ none
      → length q.messages ≡ 8
  push_if-full q m true room e = absurd (cc)
  push_if-full q m false no_room e = ground (arith, q.bounded)

  abbrev push : Queue M → M → Option (Queue M)
  push q m = push_if q m (ltb (length q.messages) 8) refl

  abbrev pop_from : (ms : List M) → length ms ≤ 8 → Option (M × Queue M)
  pop_from [] bound = none
  pop_from (m ∷ ms) bound = some (m, record { messages = ms; bounded = omega arith })

  pop_from-received :
      (ms : List M) (bound : length ms ≤ 8) (m : M) (q' : Queue M)
      → pop_from ms bound ≡ some (m, q')
      → ms ≡ m ∷ q'.messages
  pop_from-received [] bound m q' e = absurd (cc)
  pop_from-received (x ∷ ms) bound m q' e = ground arith

  pop_from-empty : (ms : List M) (bound : length ms ≤ 8) → pop_from ms bound ≡ none → ms ≡ []
  pop_from-empty [] bound e = refl
  pop_from-empty (x ∷ ms) bound e = absurd (cc)

abbrev channel : (M : Type 0) → LocalChannel (Queue M) M
channel M = record {
  new = record { messages = []; bounded = empty_fits };
  try_send = push;
  try_receive = λ q. pop_from q.messages q.bounded;
}

abbrev channel_laws : (M : Type 0) → ChannelLaws (channel M)
channel_laws M = record {
  contents = λ q. q.messages;
  contents-new = refl;
  contents-bounded = λ q. q.bounded;
  sent = λ q m q' e. push_if-sent q m (ltb (length q.messages) 8) refl q' e;
  full = λ q m e. push_if-full q m (ltb (length q.messages) 8) refl e;
  received = λ q m q' e. pop_from-received q.messages q.bounded m q' e;
  empty = λ q e. pop_from-empty q.messages q.bounded e;
}

abbrev trait : Packet ℕ
unfolding service_level
trait = record {
  packet_type_id = λ p. 7;
  service_level = λ p src dst. service_level;
  clone_packet = λ p. ok p;
}

abbrev ch : LocalChannel (Queue (Message ℕ)) (Message ℕ)
ch = channel (Message ℕ)

abbrev laws : ChannelLaws ch
laws = channel_laws (Message ℕ)

abbrev server : Addr
server = record { node = 1; port = 80 }

abbrev client : Addr
client = record { node = 2; port = 9 }

abbrev socket : Socket
socket = record { inbox = 0; local_addr = server; ty = 7 }

abbrev state0 : Machine (Queue (Message ℕ)) ℕ
state0 = initial ch trait

opened : Machine (Queue (Message ℕ)) ℕ
unfolding open_socket new_net
opened = record state0 {
  net = (open_socket ch 1 80 7 state0.net).1;
  sockets = update state0.sockets 0 (some socket);
  live = λ a. if 0 == a then true else state0.live a;
}

opening : Step ch trait state0 opened
unfolding opened open_socket new_net
opening = opens 1 80 7 socket opened.net refl refl

value : Result (Inboxes (Queue (Message ℕ)) ℕ) → Inboxes (Queue (Message ℕ)) ℕ
value (ok net) = net
value (panic why) = state0.net

sent : Machine (Queue (Message ℕ)) ℕ
unfolding enqueue_packet enqueue new_packet opened value
sent = record opened {
  net = value (enqueue_packet ch true 0 (new_packet trait client server 5) opened.net);
}

sending : Step ch trait opened sent
unfolding sent
sending = sends true 0 client server 5 sent.net refl refl

delivered : Machine (Queue (Message ℕ)) ℕ
unfolding deliver put_in enqueue_packet enqueue new_packet sent value
delivered = record sent {
  net = value (
      deliver ch (key_at 1 80 7) (arrives (new_packet trait client server 5))
        (without_delivery ch trait sent.net 0));
}

delivering : Step ch trait sent delivered
unfolding delivered deliver put_in sent enqueue_packet enqueue new_packet value opened open_socket
    new_net trait service_level
delivering =
    delivers 0
      (record { at = 0; key = key_at 1 80 7; msg = arrives (new_packet trait client server 5) })
      delivered.net refl (omega arith) refl refl

reach_opened : Reach ch trait opened
reach_opened = next start opening

reach_delivered : Reach ch trait delivered
reach_delivered = next (next reach_opened sending) delivering

Reach-Returns_example :
    Returns (drop_socket ch true socket delivered.net)
    × Returns (receive ch trait true socket delivered.net)
    × Returns (deliver ch (key_at 1 80 7) (fails 3) delivered.net)
    × Returns (start_net_node ch 1 delivered.net)
unfolding delivered sent opened
Reach-Returns_example =
    Reach-Returns ch laws trait delivered reach_delivered true socket socket (key_at 1 80 7)
      (fails 3) 1 refl refl refl

open_socket-refuses_example : (open_socket ch 1 80 7 delivered.net ≡ (none, delivered.net)) ↔ (
    (a : ℕ) × (s : Socket) × (delivered.sockets a ≡ some s)
    × (delivered.live a ≡ true)
    × (key_of s ≡ key_at 1 80 7))
open_socket-refuses_example = open_socket-refuses ch laws trait delivered reach_delivered 1 80 7

receive-Answers_example :
    Answers ch laws trait delivered true socket (receive ch trait true socket delivered.net)
unfolding delivered deliver put_in sent enqueue_packet enqueue new_packet value opened open_socket
    new_net
receive-Answers_example = receive-Answers ch laws trait delivered reach_delivered true socket refl

start_net_node-empties_example :
    (net : Inboxes (Queue (Message ℕ)) ℕ) × (start_net_node ch 1 delivered.net ≡ ok net)
    × (net.entries ≡ delivered.net.entries)
    × (net.in_flight ≡ delivered.net.in_flight)
    × Drained ch laws true (delivered.net.heap 0) (net.heap 0)
unfolding delivered sent opened
start_net_node-empties_example =
    start_net_node-empties ch laws trait delivered reach_delivered 1 0 socket refl refl

Step-Does_example : Does ch laws trait sent delivered delivering
Step-Does_example = Step-Does ch laws trait (next reach_opened sending) delivering
