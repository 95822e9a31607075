-- ===== src/Net.antt =====
-- src/net.rs: packets, sockets and their inboxes, and deliveries on their way. Types of packets and
-- errors are numbers; `P` holds the packets of all types.
mod Examples
pub mod Channel
pub mod Table
pub mod Sending
pub mod Draining
pub mod Queues
pub mod Machine
use refault.Prelude.{
  ℕ, zero, suc, ◌+◌, Bool, true, false, not, ◌&&◌, ◌||◌, List, [], ◌∷◌, ◌++◌, Option, none, some,
  is_some, Map, update, Result, ok, panic, assert_failed, unwrap_none, dangling, out_of_fuel,
  node_stopped, assert, ◌>>=◌, ◌>>◌, leb, ◌==◌, if◌then◌else◌,
}
use Channel.{LocalChannel, capacity}
use Table.{Addr, Key, find, remove}

pub record OrderingKey : Type 0 where
  pub ty : Option ℕ
  pub dst_addr : Option Addr

unfoldable pub empty_key : OrderingKey
empty_key = record { ty = none; dst_addr = none }

unfoldable pub with_dst_addr : OrderingKey → Addr → Result OrderingKey
with_dst_addr key addr = do
  assert (not (is_some key.dst_addr)) assert_failed
  ok (record key { dst_addr = some addr })

unfoldable pub with_type : OrderingKey → ℕ → Result OrderingKey
with_type key ty = do assert (not (is_some key.ty)) assert_failed; ok (record key { ty = some ty })

pub record ServiceLevel : Type 0 where
  pub ordering : Option OrderingKey
  pub allow_drop : Bool
  pub allow_multiple : Bool

-- `Packet::service_level`, where a packet does not define its own.
unfoldable pub service_level : ServiceLevel
service_level = record { ordering = none; allow_drop = true; allow_multiple = false }

-- The trait `Packet`. `clone_packet` may panic, as its default does.
pub record Packet (P : Type 0) : Type 0 where
  pub packet_type_id : P → ℕ
  pub service_level : P → Addr → Addr → ServiceLevel
  pub clone_packet : P → Result P

pub record PacketHeader : Type 0 where
  pub src : Addr
  pub dst : Addr
  pub ty : ℕ
  pub service_level : ServiceLevel

pub record PacketRc (P : Type 0) : Type 0 where
  pub header : PacketHeader
  pub packet : P

-- `Result<PacketRc, Error>`
pub data Message (P : Type 0) : Type 0 where
  arrives : PacketRc P → Message P
  fails : (error : ℕ) → Message P

-- `SendFunctionOutput`: a result, `none` for `Ok(())`, or a future for it.
pub data SendFunctionOutput (R : Type 0) : Type 0 where
  at_once : (error : Option ℕ) → SendFunctionOutput R
  later : (future : R) → SendFunctionOutput R

-- The task that `Inboxes::enqueue` spawns, as long as it has not put its message into an inbox.
pub record Delivery (P : Type 0) : Type 0 where
  pub at : ℕ
  pub key : Key
  pub msg : Message P

-- `Inboxes`, with the heap of all inboxes that an `Rc` points to. `allocated` counts those.
pub record Inboxes (C P : Type 0) : Type 0 where
  pub entries : List (Key × ℕ)
  pub heap : Map C
  pub allocated : ℕ
  pub in_flight : List (Delivery P)

-- `inbox` is the address of the socket's `Rc<Inbox>`, and `ty` its type parameter.
pub record Socket : Type 0 where
  pub inbox : ℕ
  pub local_addr : Addr
  pub ty : ℕ

abbrev pub key_of : Socket → Key
key_of s = record { addr = s.local_addr; ty = s.ty }

module _ {P : Type 0} (trait : Packet P) where
  -- `PacketRc::new`
  unfoldable pub new_packet : Addr → Addr → P → PacketRc P
  new_packet src dst packet = record {
    header = record {
      src = src;
      dst = dst;
      ty = trait.packet_type_id packet;
      service_level = trait.service_level packet src dst;
    };
    packet = packet;
  }

  -- The end of `receive`: the packet at its own type, with its source. Whether this is the last `Rc` of
  -- the packet decides between moving and cloning.
  unfoldable pub unwrap_packet : (last : Bool) → ℕ → PacketRc P → Result (P × Addr)
  unwrap_packet last ty wrapped = do
    assert (trait.packet_type_id wrapped.packet == ty) unwrap_none
    packet ← if last then ok wrapped.packet else trait.clone_packet wrapped.packet
    ok (packet, wrapped.header.src)

-- What a poll of `SocketReceiveFuture` returns.
pub data Received (P : Type 0) : Type 0 where
  pending : Received P
  failed : (error : ℕ) → Received P
  got : P → Addr → Received P

module _ {C P : Type 0} (ch : LocalChannel C (Message P)) where
  unfoldable pub new_net : Inboxes C P
  new_net = record { entries = []; heap = λ _. none; allocated = 0; in_flight = [] }

  -- `Socket::open` on the current node; none stands for `AddrInUseError`.
  unfoldable pub open_socket : (current port ty : ℕ) → Inboxes C P → Option Socket × Inboxes C P
  open_socket current port ty net =
      let key : Key = record { addr = record { node = current; port = port }; ty = ty } in
      elim (find net.entries key) [
        | some _ ↦ (none, net)
        | none ↦ (
          some (record { inbox = net.allocated; local_addr = key.addr; ty = ty }),
          record net {
            entries = (key, net.allocated) ∷ net.entries;
            heap = update net.heap net.allocated (some ch.new);
            allocated = suc net.allocated;
          },
        )
      ]

  is_own : Socket → Option ℕ → Bool
  is_own s none = false
  is_own s (some inbox) = inbox == s.inbox

  -- The destructor of `Socket`.
  unfoldable pub drop_socket : Bool → Socket → Inboxes C P → Result (Inboxes C P)
  unfolding is_own
  drop_socket debug s net = do
    assert (not debug || is_own s (find net.entries (key_of s))) assert_failed
    ok (record net { entries = remove net.entries (key_of s) })

  -- `Inboxes::enqueue`, `enqueue_packet` and `enqueue_error`: the task is spawned on the first node, which
  -- panics when that does not run. The event handler, to which a spawn reports, is left out.
  unfoldable pub enqueue :
      (init_runs : Bool) (at : ℕ) → Key → Message P → Inboxes C P → Result (Inboxes C P)
  enqueue init_runs at key msg net = do
    assert init_runs node_stopped
    ok (record net { in_flight = net.in_flight ++ record { at = at; key = key; msg = msg } ∷ [] })

  unfoldable pub enqueue_packet :
      (init_runs : Bool) (at : ℕ) → PacketRc P → Inboxes C P → Result (Inboxes C P)
  unfolding enqueue
  enqueue_packet init_runs at msg net =
      enqueue init_runs at (record { addr = msg.header.dst; ty = msg.header.ty }) (arrives msg) net

  unfoldable pub enqueue_error :
      (init_runs : Bool) (at : ℕ) → Addr → (ty error : ℕ) → Inboxes C P → Result (Inboxes C P)
  unfolding enqueue
  enqueue_error init_runs at dst ty error net =
      enqueue init_runs at (record { addr = dst; ty = ty }) (fails error) net

  -- The send function that `perfect_connectivity` returns, at the instant `now`.
  unfoldable pub perfect_connectivity :
      {R : Type 0}
      → (init_runs : Bool) (latency now : ℕ) → PacketRc P
      → Inboxes C P
      → Result (SendFunctionOutput R × Inboxes C P)
  unfolding enqueue_packet
  perfect_connectivity init_runs latency now packet net = do
    net' ← enqueue_packet init_runs (now + latency) packet net
    ok (at_once none, net')

  -- The send function, whose own state is a `W`, with futures that are an `R`.
  module _ {W R : Type 0}
      (send_function : W
        → PacketRc P
        → Inboxes C P
        → Result (SendFunctionOutput R × W × Inboxes C P)) where
    -- `Net::send_wrapped`; `map_left(ready)` makes the left output a future that is ready with it.
    unfoldable pub send_wrapped :
        (current : ℕ)
        → PacketRc P
        → W
        → Inboxes C P
        → Result (SendFunctionOutput R × W × Inboxes C P)
    send_wrapped current packet state net = do
      assert (packet.header.src.node == current) assert_failed
      send_function state packet net

    -- `Net::send` and `Socket::send` on the current node
    unfoldable pub net_send :
        Packet P
        → (current src_port : ℕ) → (dst : Addr) → P
        → W
        → Inboxes C P
        → Result (SendFunctionOutput R × W × Inboxes C P)
    unfolding send_wrapped new_packet
    net_send trait current src_port dst packet state net =
        let src : Addr = record { node = current; port = src_port } in
        send_wrapped current (new_packet trait src dst packet) state net

    unfoldable pub socket_send :
        Packet P
        → (current : ℕ) → Socket
        → (dst : Addr) → P
        → W
        → Inboxes C P
        → Result (SendFunctionOutput R × W × Inboxes C P)
    unfolding send_wrapped new_packet
    socket_send trait current s dst packet state net =
        send_wrapped current (new_packet trait s.local_addr dst packet) state net

  unfoldable put_in : Option ℕ → Message P → Inboxes C P → Result (Inboxes C P)
  put_in none msg net = ok net
  put_in (some inbox) msg net = elim (net.heap inbox) [
    | none ↦ panic dangling
    | some c ↦ elim (ch.try_send c msg) [
      | none ↦ ok net
      | some c' ↦ ok (record net { heap = update net.heap inbox (some c') })
    ]
  ]

  -- The task of `Inboxes::enqueue` after its sleep.
  unfoldable pub deliver : Key → Message P → Inboxes C P → Result (Inboxes C P)
  unfolding put_in
  deliver key msg net = put_in (find net.entries key) msg net

  unfoldable received_in :
      Packet P
      → (last : Bool) → Socket
      → Inboxes C P
      → Option (Message P × C)
      → Result (Received P × Inboxes C P)
  received_in trait last s net none = ok (pending, net)
  received_in trait last s net (some (fails error, c)) =
      ok (failed error, record net { heap = update net.heap s.inbox (some c) })
  received_in trait last s net (some (arrives wrapped, c)) = do
    (packet, src) ← unwrap_packet trait last s.ty wrapped
    ok (got packet src, record net { heap = update net.heap s.inbox (some c) })

  -- A poll of the future of `Socket::receive`.
  unfoldable pub receive :
      Packet P → (last : Bool) → Socket → Inboxes C P → Result (Received P × Inboxes C P)
  unfolding received_in unwrap_packet
  receive trait last s net = elim (net.heap s.inbox) [
    | none ↦ panic dangling
    | some c ↦ received_in trait last s net (ch.try_receive c)
  ]

  -- `while inbox.try_receive().is_ok() {}`
  unfoldable pub drain : ℕ → C → Result C
  drain zero c = panic out_of_fuel
  drain (suc fuel) c = elim (ch.try_receive c) [ none ↦ ok c | some (m, c') ↦ drain fuel c' ]

  -- The loop of `Net::start_node` over the entries, in the order in which the map yields them.
  unfoldable pub drain_node : ℕ → List (Key × ℕ) → Map C → Result (Map C)
  unfolding drain
  drain_node node [] heap = ok heap
  drain_node node ((key, inbox) ∷ entries) heap = elim (key.addr.node == node) [
    | false ↦ drain_node node entries heap
    | true ↦ elim (heap inbox) [
      | none ↦ panic dangling
      | some c ↦ elim (drain (suc capacity) c) [
        | panic why ↦ panic why
        | ok c' ↦ drain_node node entries (update heap inbox (some c'))
      ]
    ]
  ]

  -- `Net::start_node` and `Net::create_node`, on the current node.
  unfoldable pub start_net_node : ℕ → Inboxes C P → Result (Inboxes C P)
  unfolding drain_node
  start_net_node node net = do
    heap' ← drain_node node net.entries net.heap
    ok (record net { heap = heap' })
