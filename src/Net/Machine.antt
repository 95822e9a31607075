-- ===== src/Net/Machine.antt =====
-- src/net.rs under any program: its operations in any order, with any send function, any delays and
-- any choice among the deliveries that are due.
pub mod Invariant
pub mod Preserving
pub mod Moving
pub mod Safety
pub mod Contract
pub mod View
pub mod Refinement
use refault.Prelude.{
  ℕ, zero, suc, ◌≡◌, ◌≤◌, Bool, true, false, List, [], ◌∷◌, Option, some, none, Map, update, ok,
  get_elem?, ◌==◌, if◌then◌else◌,
}
use refault.Net.Channel.{LocalChannel}
use refault.Net.Table.{Addr, Key}
use refault.Net.{
  Inboxes, Message, Delivery, Packet, Socket, Received, new_net, new_packet, open_socket,
  drop_socket, enqueue_packet, enqueue_error, deliver, receive, start_net_node,
}

-- The network, the present instant, and by the address of its inbox each socket that was ever
-- opened, with whether it still exists. A future of `receive` outlives its socket.
pub record Machine (C P : Type 0) : Type 0 where
  pub net : Inboxes C P
  pub now : ℕ
  pub sockets : Map Socket
  pub live : ℕ → Bool

abbrev pub remove_at {ℓ} : {A : Type ℓ} → List A → ℕ → List A
remove_at [] i = []
remove_at (x ∷ xs) zero = xs
remove_at (x ∷ xs) (suc i) = x ∷ remove_at xs i

module _ {C P : Type 0} (ch : LocalChannel C (Message P)) (trait : Packet P) where
  abbrev pub initial : Machine C P
  initial = record { net = new_net ch; now = 0; sockets = λ _. none; live = λ _. false }

  abbrev pub without_delivery : Inboxes C P → ℕ → Inboxes C P
  without_delivery net i = record net { in_flight = remove_at net.in_flight i }

  pub data Step (m t : Machine C P) : Type 0 where
    opens :
        (current port ty : ℕ) (s : Socket) (net : Inboxes C P)
        → open_socket ch current port ty m.net ≡ (some s, net)
        → t ≡ record m {
          net = net;
          sockets = update m.sockets s.inbox (some s);
          live = λ a. if s.inbox == a then true else m.live a;
        }
        → Step m t
    drops :
        (s : Socket) (net : Inboxes C P)
        → m.sockets s.inbox ≡ some s
        → m.live s.inbox ≡ true
        → drop_socket ch true s m.net ≡ ok net
        → t ≡ record m { net = net; live = λ a. if s.inbox == a then false else m.live a }
        → Step m t
    -- what a send function may do with a packet, now or later, once or more often, and with errors
    sends :
        (init_runs : Bool) (at : ℕ) (src dst : Addr) (packet : P) (net : Inboxes C P)
        → enqueue_packet ch init_runs at (new_packet trait src dst packet) m.net ≡ ok net
        → t ≡ record m { net = net }
        → Step m t
    reports :
        (init_runs : Bool) (at : ℕ) (dst : Addr) (ty error : ℕ) (net : Inboxes C P)
        → enqueue_error ch init_runs at dst ty error m.net ≡ ok net
        → t ≡ record m { net = net }
        → Step m t
    delivers :
        (i : ℕ) (d : Delivery P) (net : Inboxes C P)
        → get_elem? m.net.in_flight i ≡ some d
        → d.at ≤ m.now
        → deliver ch d.key d.msg (without_delivery m.net i) ≡ ok net
        → t ≡ record m { net = net }
        → Step m t
    -- the task of a delivery is aborted with its node, the first one
    loses : (i : ℕ) → t ≡ record m { net = without_delivery m.net i } → Step m t
    receives :
        (last : Bool) (s : Socket) (r : Received P) (net : Inboxes C P)
        → m.sockets s.inbox ≡ some s
        → receive ch trait last s m.net ≡ ok (r, net)
        → t ≡ record m { net = net }
        → Step m t
    restarts :
        (node : ℕ) (net : Inboxes C P)
        → start_net_node ch node m.net ≡ ok net
        → t ≡ record m { net = net }
        → Step m t
    ticks : (now : ℕ) → m.now ≤ now → t ≡ record m { now = now } → Step m t

  pub data Reach : Machine C P → Type 0 where
    start : Reach initial
    next : {m t : Machine C P} → Reach m → Step m t → Reach t
