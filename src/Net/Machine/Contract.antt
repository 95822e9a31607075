-- ===== src/Net/Machine/Contract.antt =====
-- What the operations of the network do in every reachable state.
use refault.Prelude.{
  ℕ, ◌≡◌, refl, subst, Bool, true, inl, inr, ◌↔◌, none, some, Option-cases, Result-cases, Returns,
  ok, arith, ◌==◌, ==_refl,
}
use refault.Net.Channel.{LocalChannel, ChannelLaws}
use refault.Net.Table.{Key, key_at, find}
use refault.Net.Draining.{Drained}
use refault.Net.{
  Inboxes, Message, Packet, Socket, key_of, open_socket, drop_socket, is_own, deliver, receive,
  start_net_node,
}
use refault.Net.Machine.{Machine, Reach}
use refault.Net.Machine.Invariant.{Inv}
use refault.Net.Machine.Moving.{Delivered, deliver_lem, Answers, receive_lem}
use refault.Net.Machine.Safety.{Reach-Inv, node_drained, listed_of_live}

module _ {C P : Type 0} (ch : LocalChannel C (Message P)) (laws : ChannelLaws ch) (trait : Packet P)
    (m : Machine C P) (r : Reach ch trait m) where
  abbrev v : Inv ch laws trait m
  v = Reach-Inv ch laws trait r

  drop_socket-Returns :
      (debug : Bool) (s : Socket)
      → m.sockets s.inbox ≡ some s
      → m.live s.inbox ≡ true
      → Returns (drop_socket ch debug s m.net)
  unfolding drop_socket is_own
  drop_socket-Returns debug s at alive =
      let found = v.registered s.inbox s at alive in
      elim (Result-cases (drop_socket ch debug s m.net)) [
        | inl (net, e) ↦ (net, e)
        | inr (why, e) ↦ ground (arith, ==_refl s.inbox)
      ]

  receive-Returns :
      (s : Socket) → m.sockets s.inbox ≡ some s → Returns (receive ch trait true s m.net)
  receive-Returns s at = elim (Result-cases (receive ch trait true s m.net)) [
    | inl (a, e) ↦ (a, e)
    | inr (why, e) ↦
        let (shared, rest, why') =
          subst (Answers ch laws trait m true s) e (receive_lem ch laws trait m v true s at) in
        absurd (cc)
  ]

  deliver-Returns : (key : Key) (msg : Message P) → Returns (deliver ch key msg m.net)
  deliver-Returns key msg = elim (Result-cases (deliver ch key msg m.net)) [
    | inl (a, e) ↦ (a, e)
    | inr (why, e) ↦
        absurd (subst (Delivered ch laws trait m key msg) e (deliver_lem ch laws trait m v key msg))
  ]

  start_net_node-Returns : (node : ℕ) → Returns (start_net_node ch node m.net)
  unfolding start_net_node
  start_net_node-Returns node =
      let (heap', drained, states) = node_drained ch laws trait m v node in
      (record m.net { heap = heap' }, rw (drained) refl)

  -- In a reachable state none of these panics: to drop a socket that exists, also with debug assertions,
  -- to poll the future of `receive` of any socket that was opened, as long as the packet is not shared,
  -- to deliver a message for any key, and to start any node, whose loop has enough fuel.
  pub Reach-Returns :
      (debug : Bool) (s opened : Socket) (key : Key) (msg : Message P) (node : ℕ)
      → m.sockets s.inbox ≡ some s
      → m.live s.inbox ≡ true
      → m.sockets opened.inbox ≡ some opened
      → Returns (drop_socket ch debug s m.net)
        × Returns (receive ch trait true opened m.net)
        × Returns (deliver ch key msg m.net)
        × Returns (start_net_node ch node m.net)
  Reach-Returns debug s opened key msg node at alive at' = (
    drop_socket-Returns debug s at alive,
    receive-Returns opened at',
    deliver-Returns key msg,
    start_net_node-Returns node,
  )

  -- In a reachable state `Socket::open` refuses an address and a type exactly if a socket with that
  -- address and type exists, and then it changes nothing.
  pub open_socket-refuses :
      (current port ty : ℕ)
      → (open_socket ch current port ty m.net ≡ (none, m.net)) ↔ (
          (a : ℕ) × (s : Socket) × (m.sockets a ≡ some s)
          × (m.live a ≡ true)
          × (key_of s ≡ key_at current port ty))
  unfolding open_socket
  open_socket-refuses current port ty = (
    λ refused. elim (Option-cases (find m.net.entries (key_at current port ty))) [
      | inl free ↦ absurd (ground arith)
      | inr (a, found) ↦
          let (s, at, same, alive) = v.existing (key_at current port ty) a found in
          (a, s, at, alive, same)
    ],
    λ (a, s, at, alive, same).
        let found = v.registered a s at alive in
        let taken : find m.net.entries (key_at current port ty) ≡ some a = cc in
        rw (open_socket, taken) refl,
  )

  -- In a reachable state a poll of the future of `receive` gives pending if the inbox is empty. Otherwise
  -- it takes the first message: an error, or a packet of the socket's type that was sent to the
  -- socket's address, with its source. It panics only if the packet is shared and its clone panics.
  pub receive-Answers :
      (last : Bool) (s : Socket)
      → m.sockets s.inbox ≡ some s
      → Answers ch laws trait m last s (receive ch trait last s m.net)
  receive-Answers last s at = receive_lem ch laws trait m v last s at

  -- In a reachable state the start of a node returns, and empties the inbox of a socket that exists if it is
  -- on this node, and leaves it as it was if it is on another one.
  pub start_net_node-empties :
      (node a : ℕ) (s : Socket)
      → m.sockets a ≡ some s
      → m.live a ≡ true
      → (net : Inboxes C P) × (start_net_node ch node m.net ≡ ok net)
        × (net.entries ≡ m.net.entries)
        × (net.in_flight ≡ m.net.in_flight)
        × Drained ch laws (s.local_addr.node == node) (m.net.heap a) (net.heap a)
  unfolding start_net_node
  start_net_node-empties node a s at alive =
      let (heap', drained, states) = node_drained ch laws trait m v node in
      (
        record m.net { heap = heap' },
        rw (drained) refl,
        refl,
        refl,
        subst (λ (on : Bool). Drained ch laws on (m.net.heap a) (heap' a))
            (listed_of_live ch laws trait m v node a s at alive) (states a),
      )
